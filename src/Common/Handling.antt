-- ===== src/Common/Handling.antt =====
-- tools/common.py: what a caught exception becomes.
use prisma_sdwan_mcp.Prelude.{ℕ, String, ◌≡◌, refl, some, [], ◌∷◌}
use prisma_sdwan_mcp.Prelude.Int.{pos}
use prisma_sdwan_mcp.Value.{int, str, Fields, end, field, get, has}
use prisma_sdwan_mcp.Errors.{Failure, resolution, capability, registry, unexpected}
use prisma_sdwan_mcp.Prelude.Text.{Text, codes}
use prisma_sdwan_mcp.Response.{own_fields, structured_error}
use prisma_sdwan_mcp.Response.Errors.{structured_error-get}
use prisma_sdwan_mcp.Common.{merge_fields, candidates_value, handle_error}

-- The code and the status of an exception's class.
abbrev pub class_of : Failure → String × ℕ
class_of (resolution m []) = ("not_found", 404)
class_of (resolution m (c ∷ cs)) = ("ambiguous_match", 409)
class_of (capability m) = ("invalid_capability_request", 400)
class_of (registry m) = ("invalid_argument", 400)
class_of (unexpected name) = ("internal_error", 500)

abbrev pub HasClass : Fields → String × ℕ → Type 0
HasClass fs (code, status) =
    (get "code" fs ≡ some (str (codes code))) × (get "status_code" fs ≡ some (int (pos status)))

structured_error-HasClass :
    (code : String) (message tool : Text) (status : ℕ) (details : Fields)
    → HasClass
        (structured_error (codes code) message tool (int (pos status)) details)
        (code, status)
unfolding own_fields has get
structured_error-HasClass code message tool status details = (
  structured_error-get (codes code) message tool (int (pos status)) details "code" refl,
  structured_error-get (codes code) message tool (int (pos status)) details "status_code" refl,
)

-- The error of a tool has the code and the status of the exception's class, whatever the extra
-- entries are: 409 for a resolution with candidates, 404 for one without, 400 for a capability or
-- registry error, 500 for any other.
pub handle_error-HasClass :
    (text : Failure → Text) (tool : Text) (f : Failure) (extra : Fields)
    → HasClass (handle_error text tool f extra) (class_of f)
unfolding handle_error
handle_error-HasClass text tool (resolution m []) extra =
    structured_error-HasClass "not_found" (text (resolution m [])) tool 404
      (merge_fields (field "candidates" (candidates_value []) end) extra)
handle_error-HasClass text tool (resolution m (c ∷ cs)) extra =
    structured_error-HasClass "ambiguous_match" (text (resolution m (c ∷ cs))) tool 409
      (merge_fields (field "candidates" (candidates_value (c ∷ cs)) end) extra)
handle_error-HasClass text tool (capability m) extra =
    structured_error-HasClass "invalid_capability_request" (text (capability m)) tool 400 extra
handle_error-HasClass text tool (registry m) extra =
    structured_error-HasClass "invalid_argument" (text (registry m)) tool 400 extra
handle_error-HasClass text tool (unexpected name) extra =
    structured_error-HasClass "internal_error" (codes "unexpected server error") tool 500
      (merge_fields (field "exception" (str name) end) extra)
