-- ===== src/Safety.antt =====
-- safety.py: the redaction that every response of a registry action passes through.
pub mod Laws
pub mod Tests
use prisma_sdwan_mcp.Prelude.{
  ◌==◌, if◌then◌else◌, any, is_empty, ℕ, String, Bool, false, not, ◌&&◌, ◌||◌, Option, none, some,
  List, [], ◌∷◌, map,
}
use prisma_sdwan_mcp.Prelude.Text.{Text, codes, in_range, starts_with, contains, lower}
use prisma_sdwan_mcp.Value.{
  Value, null, bool, int, real, str, list, dict, Fields, end, field, Items, nil, cons, is_null,
}

-- `ResponseSafety.patterns`
abbrev pub Patterns : Type 0
Patterns = List Text

abbrev pub default_patterns : Patterns
default_patterns =
    codes "password"
    ∷ codes "passwd"
    ∷ codes "secret"
    ∷ codes "token"
    ∷ codes "session_id"
    ∷ codes "token_session"
    ∷ codes "private_key"
    ∷ codes "privatekey"
    ∷ codes "passphrase"
    ∷ codes "community_string"
    ∷ codes "auth_token"
    ∷ codes "authtoken"
    ∷ codes "client_secret"
    ∷ []

-- `ResponseSafety.__init__`: an empty or missing list of patterns means the default.
unfoldable pub init : Option Patterns → Patterns
init none = map lower default_patterns
init (some []) = map lower default_patterns
init (some (p ∷ ps)) = map lower (p ∷ ps)

is_key_char : ℕ → Bool
unfolding in_range
is_key_char c = in_range b'a' b'z' c || in_range b'0' b'9' c

-- `re.sub(r"[^a-z0-9]+", "_", s)`: one `_` for each run of other characters. The flag says that
-- the character before belongs to such a run.
underscore_runs : Bool → Text → Text
unfolding is_key_char
underscore_runs inside [] = []
underscore_runs inside (c ∷ s) =
    let other = not (is_key_char c) in
    let rest = underscore_runs other s in
    if other then (if inside then rest else b'_' ∷ rest) else c ∷ rest

strip_left_underscores : Text → Text
strip_left_underscores [] = []
strip_left_underscores (c ∷ s) =
    let rest = strip_left_underscores s in if c == b'_' then rest else c ∷ s

strip_right_underscores : Text → Text
strip_right_underscores [] = []
strip_right_underscores (c ∷ s) =
    let rest = strip_right_underscores s in if is_empty rest && c == b'_' then [] else c ∷ rest

unfoldable pub normalize_key : String → Text
unfolding underscore_runs strip_left_underscores strip_right_underscores lower
normalize_key key =
    strip_right_underscores (strip_left_underscores (underscore_runs false (lower (codes key))))

unfoldable pub is_sensitive_key : Patterns → String → Bool
unfolding normalize_key contains
is_sensitive_key patterns key = any (contains (normalize_key key)) patterns

-- `text_key.startswith("_")`
unfoldable pub is_hidden_key : String → Bool
unfolding starts_with
is_hidden_key key = starts_with (codes key) (b'_' ∷ [])

abbrev pub redacted : Value
redacted = str (codes "[REDACTED]")

-- `redact`, `redact` of the entries of an object, and of the elements of a list.
unfoldable mutual
  pub redact : Patterns → Value → Value
  redact ps (dict fs) = dict (redact_fields ps fs)
  redact ps (list vs) = list (redact_items ps vs)
  redact ps null = null
  redact ps (bool b) = bool b
  redact ps (int n) = int n
  redact ps (real t) = real t
  redact ps (str s) = str s

  pub redact_fields : Patterns → Fields → Fields
  redact_fields ps end = end
  redact_fields ps (field k v fs) =
      if is_hidden_key k
      then redact_fields ps fs
      else if is_sensitive_key ps k
      then field k redacted (redact_fields ps fs)
      else if is_null v
      then redact_fields ps fs
      else field k (redact ps v) (redact_fields ps fs)

  pub redact_items : Patterns → Items → Items
  redact_items ps nil = nil
  redact_items ps (cons v vs) = cons (redact ps v) (redact_items ps vs)
