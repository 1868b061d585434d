-- ===== src/Client/Extract.antt =====
-- client.py: `_clean` and `_extract_response`, what a response of the SDK becomes.
use prisma_sdwan_mcp.Prelude.{
  ◌==◌, if◌then◌else◌, ℕ, Bool, true, false, ◌||◌, Option, none, some, [], ◌∷◌, ◌++◌,
}
use prisma_sdwan_mcp.Prelude.Int.{pos}
use prisma_sdwan_mcp.Prelude.Text.{Text, codes, text_eq, starts_with}
use prisma_sdwan_mcp.Value.{
  Value, null, bool, int, real, str, list, dict, Fields, end, field, Items, nil, cons, is_null, get,
  truthy,
}
use prisma_sdwan_mcp.Resolver.Records.{decimal}

-- What an SDK call returns: plain data, or a response object.
pub data Response : Type 0 where
  plain : Value → Response
  http : (status_code : Option ℕ) → (cgx_status : Bool) → (cgx_content : Value) → Response

unfoldable pub status_code : Response → Option ℕ
status_code (plain v) = none
status_code (http s ok_ content) = s

-- `getattr(response, "cgx_status", False)`
unfoldable pub cgx_status : Response → Bool
cgx_status (plain v) = false
cgx_status (http s ok_ content) = ok_

-- `_clean`: no None and no key with a leading underscore in an object, at every depth.
unfoldable mutual
  pub clean : Value → Value
  clean (dict fs) = dict (clean_fields fs)
  clean (list vs) = list (clean_items vs)
  clean null = null
  clean (bool b) = bool b
  clean (int n) = int n
  clean (real t) = real t
  clean (str s) = str s

  pub clean_fields : Fields → Fields
  clean_fields end = end
  clean_fields (field k v fs) =
      if is_null v || starts_with (codes k) (b'_' ∷ [])
      then clean_fields fs
      else field k (clean v) (clean_fields fs)

  pub clean_items : Items → Items
  clean_items nil = nil
  clean_items (cons v vs) = cons (clean v) (clean_items vs)

unknown_error : Value
unknown_error = str (codes "Unknown error")

-- `errors[0].get("message", "Unknown error") if errors else "Unknown error"`; `none` where this raises.
first_message : Value → Option Value
unfolding get unknown_error truthy
first_message (list nil) = some unknown_error
first_message (list (cons (dict fs) vs)) =
    some (elim (get "message" fs) [ none ↦ unknown_error | some m ↦ m ])
first_message (list (cons _ vs)) = none
first_message v = if truthy v then none else some unknown_error

-- `content.get("_error", [{}]) if isinstance(content, dict) else [{}]`, and its first message.
message_of : Value → Option Value
unfolding first_message get unknown_error
message_of (dict fs) = elim (get "_error" fs) [
  | none ↦ some unknown_error
  | some errors ↦ first_message errors
]
message_of _ = some unknown_error

http_error : Option ℕ → Text
unfolding codes decimal
http_error none = codes "HTTP None error"
http_error (some s) =
    if s == 400
    then codes "Bad request"
    else if s == 401
    then codes "Authentication failed"
    else if s == 403
    then codes "Permission denied"
    else if s == 404
    then codes "Resource not found"
    else if s == 429
    then codes "Rate limit exceeded"
    else if s == 500
    then codes "Internal server error"
    else codes "HTTP " ++ (decimal s ++ codes " error")

abbrev pub status_value : Option ℕ → Value
status_value none = null
status_value (some s) = int (pos s)

is_unknown : Value → Bool
unfolding text_eq codes
is_unknown (str s) = text_eq s (codes "Unknown error")
is_unknown _ = false

error_value : Option ℕ → Option Value → Value
unfolding is_unknown http_error
error_value s none = dict (field "error" (str (codes "Response parsing error")) end)
error_value s (some m) =
    let text = if is_unknown m then str (http_error s) else m in
    dict (field "error" text (field "status_code" (status_value s) end))

content_value : Value → Value
unfolding clean get
content_value (dict fs) = elim (get "items" fs) [ none ↦ clean (dict fs) | some vs ↦ clean vs ]
content_value v = clean v

unfoldable pub extract_response : Response → Value
unfolding clean error_value message_of content_value
extract_response (plain v) = clean v
extract_response (http s true content) = content_value content
extract_response (http s false content) = error_value s (message_of content)
