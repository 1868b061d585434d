-- ===== src/Safety/Tests.antt =====
-- Redaction on a concrete record, and its theorems at that input.
use prisma_sdwan_mcp.Prelude.{◌≡◌, refl, true, none, some}
use prisma_sdwan_mcp.Prelude.Text.{codes, in_range}
use prisma_sdwan_mcp.Value.{null, bool, str, list, dict, Fields, end, field, nil, cons, get}
use prisma_sdwan_mcp.Safety.{Patterns, init, is_sensitive_key, is_hidden_key, redact, redact_fields}
use prisma_sdwan_mcp.Safety.Laws.{IsClean, redact-IsClean, redact_idem, get-redact}

safety : Unit {0}
unfolding redact is_sensitive_key is_hidden_key init codes get in_range
safety = tt

abbrev patterns : Patterns
patterns = init none

abbrev record_in : Fields
record_in = field "name" (str (codes "edge")) (
    field "Auth-Token" (str (codes "abc"))
      (field "_etag" (bool true) (field "role" null (field "ids" (list (cons null nil)) end))))

redact_record :
    redact patterns (dict record_in)
    ≡ dict (
        field "name"
          (str (codes "edge"))
          (field "Auth-Token" (str (codes "[REDACTED]")) (field "ids" (list (cons null nil)) end)))
unfolding safety
redact_record = refl

redact-IsClean_example : IsClean patterns (redact patterns (dict record_in))
redact-IsClean_example = redact-IsClean patterns (dict record_in)

redact_idem_example :
    redact patterns (redact patterns (dict record_in)) ≡ redact patterns (dict record_in)
redact_idem_example = redact_idem patterns (dict record_in)

get-redact_example :
    get "name" (redact_fields patterns record_in) ≡ some (redact patterns (str (codes "edge")))
unfolding safety
get-redact_example = get-redact patterns "name" (str (codes "edge")) record_in refl refl refl refl
