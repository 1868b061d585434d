-- ===== src/Executor/Paths.antt =====
-- executor.py: the check of the path parameters.
use prisma_sdwan_mcp.Prelude.{
  if◌then◌else◌, keep, is_empty, Bool, true, false, not, Option, none, some, List, [], ◌∷◌, map,
}
use prisma_sdwan_mcp.Prelude.Text.{Text, codes, text_eq}
use prisma_sdwan_mcp.Value.{Value, str, Fields, end, field, is_null}
use prisma_sdwan_mcp.Catalog.{ActionSpec, required_path_parameters, holds, text_before}
use prisma_sdwan_mcp.Errors.{CapabilityMessage, missing_paths, unknown_paths}
use prisma_sdwan_mcp.Prelude.Result.{Result, err, ok}

-- The texts of the keys of an object.
unfoldable pub key_texts : Fields → List Text
unfolding codes
key_texts end = []
key_texts (field k v fs) = codes k ∷ key_texts fs

-- `{str(k): v for k, v in supplied.items() if v is not None}`
unfoldable pub clean_paths : Fields → Fields
clean_paths end = end
clean_paths (field k v fs) = let rest = clean_paths fs in if is_null v then rest else field k v rest

-- The value under a name that is a text.
unfoldable pub value_at : Text → Fields → Option Value
unfolding text_eq codes
value_at name end = none
value_at name (field k v fs) =
    let later = value_at name fs in if text_eq (codes k) name then some v else later

unfoldable pub is_blank : Option Value → Bool
is_blank none = true
is_blank (some (str [])) = true
is_blank (some v) = false

insert_text : Text → List Text → List Text
unfolding text_before
insert_text s [] = s ∷ []
insert_text s (t ∷ ts) =
    let later = insert_text s ts in if text_before t s then t ∷ later else s ∷ t ∷ ts

-- `sorted` on texts.
unfoldable pub sort_texts : List Text → List Text
unfolding insert_text
sort_texts [] = []
sort_texts (t ∷ ts) = insert_text t (sort_texts ts)

unfoldable pub absent_from : List Text → List Text → List Text
unfolding holds
absent_from names allowed = keep (λ n. not (holds n allowed)) names

-- `_validate_paths`
unfoldable pub validate_paths : ActionSpec → Fields → Result CapabilityMessage Fields
unfolding clean_paths value_at is_blank required_path_parameters absent_from key_texts sort_texts
validate_paths action supplied =
    let cleaned = clean_paths supplied in
    let missing = keep (λ n. is_blank (value_at n cleaned)) (required_path_parameters action) in
    let unknown = absent_from (key_texts cleaned) (map (λ p. p.name) action.path_parameters) in
    if not (is_empty missing)
    then err (missing_paths missing)
    else if not (is_empty unknown)
    then err (unknown_paths action.action_id (sort_texts unknown))
    else ok cleaned
