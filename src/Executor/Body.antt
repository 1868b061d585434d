-- ===== src/Executor/Body.antt =====
-- executor.py: the check of the body against the registry's schema.
use prisma_sdwan_mcp.Prelude.{
  if◌then◌else◌, is_empty, String, Bool, true, false, not, ◌&&◌, ◌||◌, Option, none, some, List, [],
  ◌∷◌, str_eq,
}
use prisma_sdwan_mcp.Prelude.Text.{Text, codes, text_eq}
use prisma_sdwan_mcp.Value.{
  Value, null, bool, int, real, str, list, dict, Fields, end, field, Items, nil, cons, get, has,
  truthy,
}
use prisma_sdwan_mcp.Executor.Paths.{key_texts, sort_texts, absent_from}
use prisma_sdwan_mcp.Catalog.{ActionSpec, holds}
use prisma_sdwan_mcp.Errors.{
  CapabilityMessage, get_with_body, not_an_object, retrieved_fields, unknown_fields,
  schema_violation,
}
use prisma_sdwan_mcp.Prelude.Result.{Result, err, ok}

-- What the validator of JSON schemas says of a body; a message is its text with the place.
pub data SchemaCheck : Type 0 where
  accepted : SchemaCheck
  violated : Text → SchemaCheck
  schema_error : SchemaCheck

type_names : List Text
unfolding codes
type_names =
    codes "object"
    ∷ codes "array"
    ∷ codes "string"
    ∷ codes "integer"
    ∷ codes "number"
    ∷ codes "boolean"
    ∷ codes "null"
    ∷ []

-- The entries that are left out: a Boolean `required`, and a `type` that JSON schema does not know.
is_dropped : String → Value → Bool
unfolding holds type_names
is_dropped k (bool b) = str_eq k "required"
is_dropped k (str t) = str_eq k "type" && not (holds t type_names)
is_dropped k v = false

-- The entries whose keys are names of the schema's author.
is_mapping : String → Bool
is_mapping k =
    str_eq k "properties"
    || str_eq k "$defs"
    || str_eq k "definitions"
    || str_eq k "patternProperties"

-- `_normalize_schema`, and the values of a mapping of names.
unfoldable mutual
  unfolding is_dropped is_mapping

  pub normalize_schema : Value → Value
  normalize_schema (dict fs) = dict (normalize_fields fs)
  normalize_schema (list vs) = list (normalize_items vs)
  normalize_schema null = null
  normalize_schema (bool b) = bool b
  normalize_schema (int n) = int n
  normalize_schema (real t) = real t
  normalize_schema (str s) = str s

  pub normalize_fields : Fields → Fields
  normalize_fields end = end
  normalize_fields (field k v fs) =
      if is_dropped k v
      then normalize_fields fs
      else field k (normalize_entry (is_mapping k) v) (normalize_fields fs)

  pub normalize_entry : Bool → Value → Value
  normalize_entry true (dict fs) = dict (normalize_each fs)
  normalize_entry false (dict fs) = dict (normalize_fields fs)
  normalize_entry b (list vs) = list (normalize_items vs)
  normalize_entry b null = null
  normalize_entry b (bool c) = bool c
  normalize_entry b (int n) = int n
  normalize_entry b (real t) = real t
  normalize_entry b (str s) = str s

  pub normalize_each : Fields → Fields
  normalize_each end = end
  normalize_each (field k v fs) = field k (normalize_schema v) (normalize_each fs)

  pub normalize_items : Items → Items
  normalize_items nil = nil
  normalize_items (cons v vs) = cons (normalize_schema v) (normalize_items vs)

-- `action.body_schema.get("properties")`, if it is an object.
declared_fields : Value → Option Fields
unfolding get
declared_fields (dict fs) = elim (get "properties" fs) [ some (dict ds) ↦ some ds | _ ↦ none ]
declared_fields v = none

unknown_body_fields : Option Fields → Fields → List Text
unfolding absent_from key_texts
unknown_body_fields none value = []
unknown_body_fields (some declared) value = absent_from (key_texts value) (key_texts declared)

declared_names : Option Fields → List Text
unfolding sort_texts key_texts
declared_names none = []
declared_names (some declared) = sort_texts (key_texts declared)

unfoldable pub is_get : ActionSpec → Bool
unfolding text_eq codes
is_get action = text_eq action.http_method (codes "GET")

module _ (check_schema : Value → Value → SchemaCheck) where
  check_against : ActionSpec → Fields → Result CapabilityMessage Value
  unfolding normalize_schema declared_fields unknown_body_fields declared_names sort_texts
  check_against action value =
      let declared = declared_fields action.body_schema in
      let unknown = unknown_body_fields declared value in
      if not (is_empty unknown)
      then err (unknown_fields action.action_id (sort_texts unknown) (declared_names declared))
      else elim (check_schema (normalize_schema action.body_schema) (dict value)) [
        | accepted ↦ ok (dict value)
        | violated m ↦ err (schema_violation m)
        | schema_error ↦ ok (dict value)
      ]

  check_object : ActionSpec → Fields → Result CapabilityMessage Value
  unfolding has truthy check_against
  check_object action value =
      if has "retrieved_fields" value
      then err retrieved_fields
      else if truthy action.body_schema
      then check_against action value
      else ok (dict value)

  post_body : ActionSpec → Value → Result CapabilityMessage Value
  unfolding check_object
  post_body action null = check_object action end
  post_body action (dict fs) = check_object action fs
  post_body action v = err not_an_object

  get_body : Value → Result CapabilityMessage Value
  get_body null = ok null
  get_body (dict end) = ok null
  get_body v = err get_with_body

  -- `_validate_body`; None is `null`.
  unfoldable pub validate_body : ActionSpec → Value → Result CapabilityMessage Value
  unfolding is_get get_body post_body
  validate_body action body = if is_get action then get_body body else post_body action body
