-- ===== src/Cli/Redact/Tests.antt =====
-- Redaction of concrete lines of output, ASCII letters, digits and `_` being the word characters.
use prisma_sdwan_mcp.Cli.Redact.Flag.{redact_text-flag}
use prisma_sdwan_mcp.Prelude.{◌==◌, ℕ, ◌≡◌, refl, ◌≢◌, ◌↔◌, Bool, true, false, ◌||◌}
use prisma_sdwan_mcp.Prelude.Text.{codes, in_range, is_space, is_digit, is_alnum}
use prisma_sdwan_mcp.Re.{ends, match, fold_case, ignore_case}
use prisma_sdwan_mcp.Cli.Redact.{redact_text}

ascii_word : ℕ → Bool
ascii_word c = is_alnum c || c == b'_'

redaction : Unit {0}
unfolding ascii_word redact_text ends match is_space is_alnum is_digit in_range fold_case
    ignore_case codes
redaction = tt

redact_password :
    redact_text ascii_word (codes "password: hunter2 x") ≡ (codes "password: [REDACTED] x", true)
unfolding redaction
redact_password = refl

redact_url :
    redact_text ascii_word (codes "see ssh://me:pw@h") ≡ (codes "see ssh://me:[REDACTED]@h", true)
unfolding redaction
redact_url = refl

redact_nothing : redact_text ascii_word (codes "eth1 up") ≡ (codes "eth1 up", false)
unfolding redaction
redact_nothing = refl

redact_text-flag_test :
    ((redact_text ascii_word (codes "eth1 up")).1 ≡ true)
    ↔ ((redact_text ascii_word (codes "eth1 up")).0 ≢ codes "eth1 up")
redact_text-flag_test = redact_text-flag ascii_word (codes "eth1 up")
