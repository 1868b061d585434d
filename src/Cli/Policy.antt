-- ===== src/Cli/Policy.antt =====
-- cli/policy.py: which commands may be sent to a device. The patterns are the file's regular
-- expressions, part by part. A reason is a constructor that holds the values which the code puts
-- into its message.
pub mod Patterns
pub mod Accepted
pub mod Characters
pub mod Pipes
pub mod Batch
pub mod Tests
use prisma_sdwan_mcp.Prelude.{
  ltb, leb, ◌==◌, if◌then◌else◌, length, any, is_empty, ℕ, String, Bool, true, false, not, ◌&&◌,
  ◌||◌, Option, none, some, List, [], ◌∷◌, map,
}
use prisma_sdwan_mcp.Prelude.Text.{
  Text, codes, in_range, is_space, is_digit, is_alnum, text_eq, strip,
}
use prisma_sdwan_mcp.Prelude.Int.{decimal_from}
use prisma_sdwan_mcp.Prelude.Result.{Result, ok, ◌>>=◌}
use prisma_sdwan_mcp.Config.{Env, ConfigError, get_ion_max_commands}
use prisma_sdwan_mcp.Re.{Re, chr, seq, alt, star, plus, opt, lit, up_to, fullmatch}

-- One of the characters of a text, as in `[...]`.
unfoldable pub one_of : Text → ℕ → Bool
one_of s c = any (λ d. d == c) s

abbrev space : Re
space = chr is_space

-- `_SAFE_ARGUMENT`
unfoldable pub safe_char : ℕ → Bool
safe_char c = is_alnum c || one_of (codes "_.:/=-") c

abbrev safe_argument : Re
safe_argument = seq (chr is_alnum) (star (chr safe_char))

-- `_GREP_ARGUMENT`
unfoldable pub grep_char : ℕ → Bool
grep_char c = is_alnum c || one_of (codes "_.:/=,*?+-[]{}^") c

abbrev grep_argument : Re
grep_argument = seq (chr is_alnum) (star (chr grep_char))

unfoldable pub grep_flag : ℕ → Bool
grep_flag c = one_of (codes "ivwF") c

abbrev is_char : ℕ → ℕ → Bool
is_char d c = c == d

abbrev char : ℕ → Re
char d = chr (is_char d)

-- `_GREP_FILTER` without its `?`
abbrev grep_filter : Re
grep_filter = seq (plus space) (
    seq (char b'|') (
      seq (plus space) (
        seq (lit (codes "grep")) (
          seq (star (seq (plus space) (seq (char b'-') (chr grep_flag))))
            (seq (plus space) (seq grep_argument (star (seq (plus space) grep_argument))))))))

pub data Family : Type 0 where
  dump inspect ping tcpping dig : Family

abbrev pub family_name : Family → String
family_name dump = "dump"
family_name inspect = "inspect"
family_name ping = "ping"
family_name tcpping = "tcpping"
family_name dig = "dig"

-- `ION_READ_ONLY_PATTERNS`
abbrev read_only_pattern : Family → Re
read_only_pattern f =
    seq (lit (codes (family_name f)))
      (seq (plus (seq (plus space) safe_argument)) (opt grep_filter))

-- `_PORT`
abbrev port : Re
port = seq (chr is_digit) (up_to 4 (chr is_digit))

-- `_PING_COUNT`
abbrev ping_count : Re
ping_count = alt (chr (in_range b'1' b'9')) (lit (codes "10"))

-- `ION_DIAGNOSTIC_PATTERNS`
abbrev ping_pattern : Re
ping_pattern = seq (lit (codes "ping ")) (
    seq safe_argument (
      seq (char b' ')
        (seq safe_argument (opt (seq (lit (codes " args=\"-c ")) (seq ping_count (char b'"')))))))

abbrev tcpping_pattern : Re
tcpping_pattern =
    seq (lit (codes "tcpping "))
      (seq safe_argument (seq (char b' ') (seq safe_argument (seq (char b':') port))))

abbrev dig_pattern : Re
dig_pattern =
    seq (lit (codes "dig "))
      (seq safe_argument (seq (char b' ') (seq safe_argument (seq (char b' ') safe_argument))))

-- `ION_COMMAND_PATTERNS`, as a function of the family.
unfoldable pub pattern_of : Family → Re
unfolding codes
pattern_of dump = read_only_pattern dump
pattern_of inspect = read_only_pattern inspect
pattern_of ping = ping_pattern
pattern_of tcpping = tcpping_pattern
pattern_of dig = dig_pattern

abbrev families : List Family
families = dump ∷ inspect ∷ ping ∷ tcpping ∷ dig ∷ []

pub data Reason : Type 0 where
  not_a_string empty surrounding_space control_character bad_port no_match : Reason
  matches : Family → Reason

-- An element of `commands`: a string, or another object with its `str()`.
pub data Command : Type 0 where
  text : Text → Command
  object : Text → Command

pub record CommandDecision : Type 0 where
  pub command : Text
  pub allowed : Bool
  pub reason : Reason
  pub matched_pattern : Option Family

abbrev pub denied : Text → Reason → CommandDecision
denied c r = record { command = c; allowed = false; reason = r; matched_pattern = none }

abbrev pub approved : Text → Family → CommandDecision
approved c f = record { command = c; allowed = true; reason = matches f; matched_pattern = some f }

unfoldable pub is_control : ℕ → Bool
is_control c = ltb c 32 || c == 127

-- The text behind the last `mark`, if there is one.
unfoldable pub after_last : ℕ → Text → Option Text
after_last mark [] = none
after_last mark (c ∷ s) =
    let later = after_last mark s in
    elim later [ some t ↦ some t | none ↦ if c == mark then some s else none ]

-- `match.groupdict().get("port")`: the group stands at the end of the `tcpping` form, behind a
-- colon, and holds none itself. The other forms have no such group.
port_group : Family → Text → Option Text
unfolding after_last
port_group tcpping command = after_last b':' command
port_group dump command = none
port_group inspect command = none
port_group ping command = none
port_group dig command = none

-- `port is not None and not 1 <= int(port) <= 65535`
port_ok : Option Text → Bool
unfolding decimal_from
port_ok none = true
port_ok (some p) = let n = decimal_from 0 p in leb 1 n && leb n 65535

-- The loop over `ION_COMMAND_PATTERNS`: the first form that matches decides.
first_match : Text → List Family → CommandDecision
unfolding port_group port_ok pattern_of fullmatch
first_match command [] = denied command no_match
first_match command (f ∷ fs) =
    let later = first_match command fs in
    if fullmatch (pattern_of f) command
    then (if port_ok (port_group f command) then approved command f else denied command bad_port)
    else later

unfoldable pub validate_text : Text → CommandDecision
unfolding first_match is_control strip text_eq
validate_text command =
    if is_empty command
    then denied command empty
    else if not (text_eq command (strip command))
    then denied command surrounding_space
    else if any is_control command
    then denied command control_character
    else first_match command families

unfoldable pub validate_command : Command → CommandDecision
unfolding validate_text
validate_command (object s) = denied s not_a_string
validate_command (text command) = validate_text command

pub data BatchReason : Type 0 where
  not_a_list no_commands command_denied all_approved : BatchReason
  too_many : (count limit : ℕ) → BatchReason

pub record BatchDecision : Type 0 where
  pub allowed : Bool
  pub decisions : List CommandDecision
  pub reason : BatchReason

abbrev pub rejected : List CommandDecision → BatchReason → BatchDecision
rejected ds r = record { allowed = false; decisions = ds; reason = r }

-- What a caller can pass for `commands`.
pub data Commands : Type 0 where
  sequence : List Command → Commands
  no_sequence : Commands

decide_batch : List CommandDecision → BatchDecision
decide_batch ds =
    if is_empty ds
    then rejected ds no_commands
    else if any (λ d. not d.allowed) ds
    then rejected ds command_denied
    else record { allowed = true; decisions = ds; reason = all_approved }

unfoldable pub validate_batch : Env → Commands → Option ℕ → Result ConfigError BatchDecision
unfolding decide_batch get_ion_max_commands validate_command
validate_batch env no_sequence max_commands = ok (rejected [] not_a_list)
validate_batch env (sequence commands) max_commands = do
  limit ← elim max_commands [ none ↦ get_ion_max_commands env | some n ↦ ok n ]
  if ltb limit (length commands)
      then ok (rejected [] (too_many (length commands) limit))
      else ok (decide_batch (map validate_command commands))
