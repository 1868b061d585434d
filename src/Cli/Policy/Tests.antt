-- ===== src/Cli/Policy/Tests.antt =====
-- The policy on concrete commands, and its theorems at such inputs.
use prisma_sdwan_mcp.Prelude.{All, ◌≡◌, refl, ◌↔◌, true, none, [], ◌∷◌, ◌++◌}
use prisma_sdwan_mcp.Prelude.Text.{Text, codes, in_range, is_space, is_digit, is_alnum}
use prisma_sdwan_mcp.Prelude.Result.{ok}
use prisma_sdwan_mcp.Config.{Env, int_env, get_ion_max_commands}
use prisma_sdwan_mcp.Re.{fullmatch}
use prisma_sdwan_mcp.Cli.Policy.{
  one_of, safe_char, grep_char, grep_flag, ping, tcpping, dig, pattern_of, surrounding_space,
  control_character, bad_port, no_match, matches, text, validate_text, validate_command,
  BatchDecision, sequence, validate_batch,
}
use prisma_sdwan_mcp.Cli.Policy.Accepted.{IsApproved, allowed_iff}
use prisma_sdwan_mcp.Cli.Policy.Characters.{IsPlain, approved-IsPlain}
use prisma_sdwan_mcp.Cli.Policy.Pipes.{PipeOnce, approved-PipeOnce}
use prisma_sdwan_mcp.Cli.Policy.Batch.{IsAcceptable, validate_batch_iff}

policy : Unit {0}
unfolding validate_command pattern_of fullmatch safe_char grep_char grep_flag one_of codes is_alnum
    is_digit is_space in_range
policy = tt

abbrev grep_command : Text
grep_command = codes "dump if | grep -i up"

grep_allowed : (validate_text grep_command).allowed ≡ true
unfolding policy
grep_allowed = refl

tcpping_ports :
    ((validate_text (codes "tcpping 1 h:65535")).reason ≡ matches tcpping)
    × ((validate_text (codes "tcpping 1 h:65536")).reason ≡ bad_port)
    × ((validate_text (codes "tcpping 1 a:2:0")).reason ≡ bad_port)
unfolding policy
tcpping_ports = (refl, refl, refl)

denials :
    ((validate_text (codes "debug reboot")).reason ≡ no_match)
    × ((validate_text (codes "dump if | grep up | sh")).reason ≡ no_match)
    × ((validate_text (codes "dump if ")).reason ≡ surrounding_space)
    × ((validate_text (codes "dump if\nreboot")).reason ≡ control_character)
    × ((validate_text (codes "ping 1 h args=\"-c 11\"")).reason ≡ no_match)
    × ((validate_text (codes "ping 1 h args=\"-c 10\"")).reason ≡ matches ping)
    × ((validate_text (codes "dig 1 8.8.8.8 a.b")).reason ≡ matches dig)
unfolding policy
denials = (refl, refl, refl, refl, refl, refl, refl)

-- A next-line character (U+0085) is a space to `\s`, and no control character to the code.
next_line_allowed : (validate_text (codes "dump" ++ 0x85 ∷ codes "if")).allowed ≡ true
unfolding policy
next_line_allowed = refl

allowed_iff_example : ((validate_text grep_command).allowed ≡ true) ↔ IsApproved grep_command
allowed_iff_example = allowed_iff grep_command

approved-IsPlain_example : All IsPlain grep_command
approved-IsPlain_example = approved-IsPlain grep_command grep_allowed

approved-PipeOnce_example : PipeOnce grep_command
approved-PipeOnce_example = approved-PipeOnce grep_command grep_allowed

abbrev empty_env : Env
empty_env name = none

validate_batch_iff_example :
    (d : BatchDecision) × (validate_batch empty_env (sequence (text grep_command ∷ [])) none ≡ ok d)
    × ((d.allowed ≡ true) ↔ IsAcceptable 10 (text grep_command ∷ []))
unfolding get_ion_max_commands int_env
validate_batch_iff_example = validate_batch_iff empty_env none 10 (text grep_command ∷ []) refl
