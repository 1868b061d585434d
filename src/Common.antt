-- ===== src/Common.antt =====
-- tools/common.py: what the tools share. `text` gives the text of an exception.
pub mod Matching
pub mod Counting
pub mod Handling
pub mod Tests
use prisma_sdwan_mcp.Prelude.{
  ◌==◌, if◌then◌else◌, keep, is_empty, ℕ, suc, String, Bool, false, not, Option, none, some, List,
  [], ◌∷◌, map,
}
use prisma_sdwan_mcp.Prelude.Int.{pos}
use prisma_sdwan_mcp.Value.{
  Value, null, int, str, list, dict, Fields, end, field, of_items, is_null, get, get_or_null, set,
}
use prisma_sdwan_mcp.Errors.{Failure, resolution, capability, registry, unexpected}
use prisma_sdwan_mcp.Prelude.Text.{Text, codes, text_eq, strip, lower}
use prisma_sdwan_mcp.Resolver.Records.{to_text}
use prisma_sdwan_mcp.Resolver.{found, has_id, has_name, holds_name}
use prisma_sdwan_mcp.Response.{structured_error}
use prisma_sdwan_mcp.Catalog.{text_before}

-- `{k: value[k] for k in ("retry_count", "elapsed_seconds") if k in value}`
unfoldable pub pick_details : List String → Fields → Fields
unfolding get
pick_details [] fs = end
pick_details (k ∷ ks) fs =
    let rest = pick_details ks fs in elim (get k fs) [ some v ↦ field k v rest | none ↦ rest ]

unfoldable pub is_429 : Value → Bool
is_429 (int (pos n)) = n == 429
is_429 v = false

unfoldable pub upstream_error : (Value → Text) → Text → Value → Fields → Fields
unfolding get_or_null is_429 structured_error pick_details to_text codes
upstream_error repr tool error fs =
    let status = get_or_null "status_code" fs in
    structured_error (if is_429 status then codes "rate_limited" else codes "upstream_error")
      (to_text repr error) tool status (pick_details ("retry_count" ∷ "elapsed_seconds" ∷ []) fs)

-- `fail_from_upstream`: the error object, if the value is one of the client's errors.
unfoldable pub fail_from_upstream : (Value → Text) → Text → Value → Option Fields
unfolding get upstream_error
fail_from_upstream repr tool (dict fs) = elim (get "error" fs) [
  | none ↦ none
  | some error ↦ some (upstream_error repr tool error fs)
]
fail_from_upstream repr tool v = none

-- `{**d, **e}`
unfoldable pub merge_fields : Fields → Fields → Fields
unfolding set
merge_fields d end = d
merge_fields d (field k v e) = merge_fields (set k v d) e

unfoldable pub candidates_value : List Fields → Value
candidates_value [] = null
candidates_value (c ∷ cs) = list (of_items (map dict (c ∷ cs)))

-- `handle_error`; without `extra` it is given no entries.
unfoldable pub handle_error : (Failure → Text) → Text → Failure → Fields → Fields
unfolding structured_error merge_fields candidates_value codes
handle_error text tool (resolution m candidates) extra =
    let found = not (is_empty candidates) in
    structured_error (if found then codes "ambiguous_match" else codes "not_found")
      (text (resolution m candidates)) tool (int (pos (if found then 409 else 404)))
      (merge_fields (field "candidates" (candidates_value candidates) end) extra)
handle_error text tool (capability m) extra =
    structured_error (codes "invalid_capability_request") (text (capability m)) tool (int (pos 400))
      extra
handle_error text tool (registry m) extra =
    structured_error (codes "invalid_argument") (text (registry m)) tool (int (pos 400)) extra
handle_error text tool (unexpected name) extra =
    structured_error (codes "internal_error") (codes "unexpected server error") tool (int (pos 500))
      (merge_fields (field "exception" (str name) end) extra)

-- `match_named`
unfoldable pub match_named : (Value → Text) → List String → Text → List Fields → List Fields
unfolding has_id has_name holds_name lower strip
match_named repr fields value rs =
    let needle = lower (strip value) in
    let exact_id = keep (has_id repr value) rs in
    let exact_name = keep (has_name repr fields needle) rs in
    if not (is_empty exact_id)
    then exact_id
    else if not (is_empty exact_name)
    then exact_name
    else keep (holds_name repr fields needle) rs

-- The text of the first field that is not None, and "unknown" for an empty one or for none.
unfoldable pub state_of : (Value → Text) → List String → Fields → Text
unfolding get_or_null to_text codes
state_of repr [] item = codes "unknown"
state_of repr (f ∷ fs) item =
    let later = state_of repr fs item in
    let own = to_text repr (get_or_null f item) in
    if is_null (get_or_null f item) then later else if is_empty own then codes "unknown" else own

abbrev pub Counts : Type 0
Counts = List (Text × ℕ)

-- `counts[state] += 1`
unfoldable pub count_one : Text → Counts → Counts
unfolding text_eq
count_one state [] = (state, 1) ∷ []
count_one state ((t, n) ∷ rest) =
    let later = count_one state rest in
    if text_eq t state then (t, suc n) ∷ rest else (t, n) ∷ later

unfoldable pub count_states : (Value → Text) → List String → List Fields → Counts → Counts
unfolding state_of count_one
count_states repr fields [] counts = counts
count_states repr fields (item ∷ rest) counts =
    count_states repr fields rest (count_one (state_of repr fields item) counts)

unfoldable pub insert_count : Text × ℕ → Counts → Counts
unfolding text_before
insert_count c [] = c ∷ []
insert_count c (d ∷ ds) =
    let later = insert_count c ds in if text_before d.0 c.0 then d ∷ later else c ∷ d ∷ ds

unfoldable pub sort_counts : Counts → Counts
unfolding insert_count
sort_counts [] = []
sort_counts (c ∷ cs) = insert_count c (sort_counts cs)

-- `summarize_states`
unfoldable pub summarize_states : (Value → Text) → List String → List Fields → Counts
unfolding sort_counts count_states
summarize_states repr fields rs = sort_counts (count_states repr fields rs [])
