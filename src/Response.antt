-- ===== src/Response.antt =====
-- response.py: the error object that a tool returns.
pub mod Errors
pub mod Json
pub mod Compact
pub mod Kept
pub mod Outline
pub mod Base64
pub mod Loads
pub mod Cursor
pub mod Envelope
pub mod Collection
pub mod Pages
pub mod Lookup
pub mod Walk
pub mod Budget
pub mod Notes
pub mod Shape
pub mod Tests
use prisma_sdwan_mcp.Prelude.{leb, if◌then◌else◌, Bool, false, ◌&&◌, ◌||◌}
use prisma_sdwan_mcp.Prelude.Int.{pos}
use prisma_sdwan_mcp.Value.{Value, bool, int, str, Fields, end, field, is_null, has, set}
use prisma_sdwan_mcp.Prelude.Text.{Text, codes, text_eq}

-- A status is an integer or None.
unfoldable pub is_server_error : Value → Bool
is_server_error (int (pos n)) = leb 500 n && leb n 599
is_server_error _ = false

unfoldable pub is_retryable_error : Text → Value → Bool
unfolding is_server_error text_eq codes
is_retryable_error code status_code =
    text_eq code (codes "rate_limited")
    || text_eq code (codes "transient_upstream_error")
    || is_server_error status_code

-- The keys that the error sets itself.
unfoldable pub own_fields : Text → Text → Text → Value → Fields
unfolding is_retryable_error
own_fields code message tool status_code = field "code" (str code) (
    field "message" (str message) (
      field "tool" (str tool) (
        field "retryable" (bool (is_retryable_error code status_code))
          (if is_null status_code then end else field "status_code" status_code end))))

-- `result.update({k: v for k, v in details.items() if k not in reserved and v is not None})`
unfoldable pub add_details : Fields → Fields → Fields → Fields
unfolding has set
add_details reserved end out = out
add_details reserved (field k v fs) out =
    let kept = add_details reserved fs (set k v out) in
    let skipped = add_details reserved fs out in
    if has k reserved || is_null v then skipped else kept

-- `structured_error`
unfoldable pub structured_error : Text → Text → Text → Value → Fields → Fields
unfolding own_fields add_details
structured_error code message tool status_code details =
    add_details (own_fields code message tool status_code) details
      (own_fields code message tool status_code)
