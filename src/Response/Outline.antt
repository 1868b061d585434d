-- ===== src/Response/Outline.antt =====
-- response.py: `_outline`, the shape of an object that is too big to return.
use prisma_sdwan_mcp.Prelude.{
  leb, if◌then◌else◌, leb→le, Bool-cases, length, take, ℕ, ◌≤◌, ◌<◌, String, ◌≡◌, refl, ◌⊎◌, inl,
  inr, false, some, List, [], ◌∷◌, map, arith, str_eq,
}
use prisma_sdwan_mcp.Value.{
  Value, null, bool, int, real, str, list, dict, Fields, end, field, Items, items, of_items, get,
  dicts,
}
use prisma_sdwan_mcp.Prelude.Text.{codes}
use prisma_sdwan_mcp.Prelude.Int.{pos}
use prisma_sdwan_mcp.Cli.Ssh.{encode}
use prisma_sdwan_mcp.Response.Json.{compact_json}
use prisma_sdwan_mcp.Response.Compact.{all_keys, sort_keys}

abbrev pub inline_value_bytes : ℕ
inline_value_bytes = 200

-- `len(compact_json(value).encode("utf-8"))`
unfoldable pub json_bytes : Value → ℕ
unfolding compact_json encode
json_bytes v = length (encode (compact_json v))

abbrev counted : ℕ → Value
counted n = int (pos n)

item_fields : List Fields → Fields
unfolding all_keys sort_keys codes
item_fields [] = end
item_fields (r ∷ rs) =
    field "item_fields"
      (list (of_items (map (λ k. str (codes k)) (sort_keys (all_keys [] (take 50 (r ∷ rs))))))) end

list_shape : Items → Value
unfolding json_bytes dicts item_fields codes
list_shape vs = dict (
    field "omitted" (str (codes "list")) (
      field "count" (counted (length (items vs)))
        (field "bytes" (counted (json_bytes (list vs))) (item_fields (dicts vs)))))

scalar_shape : String → Value → Value
unfolding json_bytes codes
scalar_shape type_name v =
    dict (field "omitted" (str (codes type_name)) (field "bytes" (counted (json_bytes v)) end))

-- `_outline`, and that of the entries of an object.
unfoldable mutual
  unfolding json_bytes list_shape scalar_shape

  pub outline : Value → Value
  outline (dict fs) = dict (outline_fields fs)
  outline (list vs) = list_shape vs
  outline null = scalar_shape "NoneType" null
  outline (bool b) = scalar_shape "bool" (bool b)
  outline (int n) = scalar_shape "int" (int n)
  outline (real t) = scalar_shape "float" (real t)
  outline (str s) = scalar_shape "str" (str s)

  pub outline_fields : Fields → Fields
  outline_fields end = end
  outline_fields (field k v fs) =
      field k (if leb (json_bytes v) inline_value_bytes then v else outline v) (outline_fields fs)

leb-lt : (a b : ℕ) → leb a b ≡ false → b < a
leb-lt a b h = ground arith

-- An entry of the outline of an object that has the value: the value itself, if its JSON text has at
-- most 200 bytes, or else the value's outline.
abbrev pub IsOutlined : Value → Value → Type 0
IsOutlined v w =
    ((json_bytes v ≤ inline_value_bytes) × (w ≡ v))
    ⊎ ((inline_value_bytes < json_bytes v) × (w ≡ outline v))

outlined :
    (v : Value) → IsOutlined v (if leb (json_bytes v) inline_value_bytes then v else outline v)
outlined v = elim (Bool-cases (leb (json_bytes v) inline_value_bytes)) [
  | inl e ↦ rw e (inl (leb→le (json_bytes v) inline_value_bytes e, refl))
  | inr e ↦ rw e (inr (leb-lt (json_bytes v) inline_value_bytes e, refl))
]

-- Each entry of an object has its entry in the outline, verbatim if its JSON text has at most 200
-- bytes, and outlined itself if not.
pub outline_fields-get :
    (k : String) (v : Value) (fs : Fields)
    → get k fs ≡ some v
    → (w : Value) × (get k (outline_fields fs) ≡ some w) × IsOutlined v w
unfolding get outline_fields
outline_fields-get k v end h = cc
outline_fields-get k v (field j u fs) h = elim (Bool-cases (str_eq j k)) [
  | inl e ↦
      let same : u ≡ v = cc (rw (get, e) at h) in rw (get, e) (_, refl, rw (← same) (outlined u))
  | inr e ↦ rw (get, e) (outline_fields-get k v fs (rw (get, e) at h))
]
