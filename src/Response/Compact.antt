-- ===== src/Response/Compact.antt =====
-- response.py: `_compact_records`. A set of keys is the list of them in the order in which they occur.
use prisma_sdwan_mcp.Catalog.{text_before}
use prisma_sdwan_mcp.Value.{
  Value, null, str, list, dict, Fields, end, field, nil, of_items, is_null, get_or_null, set,
  truthy,
}
use prisma_sdwan_mcp.Prelude.{
  ltb, ◌==◌, if◌then◌else◌, length, any, all, keep, is_empty, ℕ, ◌+◌, ◌*◌, max, String, Bool, true,
  false, not, ◌&&◌, ◌||◌, List, [], ◌∷◌, ◌++◌, map, str_eq,
}
use prisma_sdwan_mcp.Prelude.Text.{Text, codes, text_eq}
use prisma_sdwan_mcp.Re.{Re, chr, alt, ends, search_in, ignore_case}
use prisma_sdwan_mcp.Response.Json.{compact_json}

words : List String → Re
unfolding ignore_case codes
words [] = chr (λ c. false)
words (w ∷ ws) = alt (ignore_case (codes w)) (words ws)

-- `$`: the end of the text, or a line end that is its last character.
at_end : Text → Bool
at_end [] = true
at_end (c ∷ []) = c == 10
at_end (c ∷ d ∷ s) = false

ends_whole : Re → Text → Bool
unfolding ends at_end
ends_whole r s = any at_end (ends r s)

-- A search for the pattern in front of the end.
search_end : Re → Text → Bool
unfolding ends_whole
search_end r [] = ends_whole r []
search_end r (c ∷ s) = let later = search_end r s in ends_whole r (c ∷ s) || later

-- `_CONDITION.search`
unfoldable pub is_condition : String → Bool
unfolding words search_in search_end codes
is_condition name =
    search_in
      (words (
        "state" ∷ "status" ∷ "error" ∷ "alarm" ∷ "severity" ∷ "connect" ∷ "enabled" ∷ "disabled"
        ∷ "down" ∷ "fault" ∷ "health" ∷ "active" ∷ "usable" ∷ "cleared" ∷ "suppress" ∷ "expir"
        ∷ "licen" ∷ "reachab" ∷ "fail" ∷ "warn" ∷ "admin_action" ∷ "mode" ∷ []))
      (codes name)
    || search_end (words ("up" ∷ [])) (codes name)

-- `_IDENTITY.search`
unfoldable pub is_identity : String → Bool
unfolding words ends_whole search_end codes
is_identity name =
    ends_whole
      (words (
        "id" ∷ "name" ∷ "display_name" ∷ "description" ∷ "code" ∷ "time" ∷ "timestamp"
        ∷ "created_on" ∷ "updated_on" ∷ "serial_number" ∷ "hw_id" ∷ "model_name"
        ∷ "software_version" ∷ "version" ∷ "ipv4" ∷ "ipv6" ∷ "address" ∷ "prefix" ∷ "role" ∷ "type"
        ∷ "kind" ∷ "category" ∷ "label" ∷ "severity" ∷ []))
      (codes name)
    || search_end (words ("_id" ∷ "_ids" ∷ "_time" ∷ "_ip" ∷ "_role" ∷ "_type" ∷ [])) (codes name)

-- `_keep_field`
unfoldable pub keep_field : String → Bool
unfolding is_identity is_condition
keep_field name = is_identity name || is_condition name

unfoldable pub in_keys : String → List String → Bool
in_keys k ks = any (λ j. str_eq j k) ks

unfoldable pub add_keys : List String → Fields → List String
unfolding in_keys
add_keys ks end = ks
add_keys ks (field k v fs) =
    let old = add_keys ks fs in
    let new = add_keys (ks ++ k ∷ []) fs in if in_keys k ks then old else new

-- `keys`, the names of all fields.
unfoldable pub all_keys : List String → List Fields → List String
unfolding add_keys
all_keys ks [] = ks
all_keys ks (r ∷ rs) = all_keys (add_keys ks r) rs

-- `value in (None, "", [], {})`
unfoldable pub is_void : Value → Bool
is_void null = true
is_void (str []) = true
is_void (list nil) = true
is_void (dict end) = true
is_void v = false

unfoldable pub is_empty_key : List Fields → String → Bool
unfolding is_void get_or_null
is_empty_key rs k = all (λ r. is_void (get_or_null k r)) rs

-- Whether all records have the same value, by its JSON text, and it is not None.
unfoldable pub same_as : Value → String → List Fields → Bool
unfolding compact_json get_or_null text_eq
same_as v k rs = all (λ r. text_eq (compact_json (get_or_null k r)) (compact_json v)) rs

unfoldable pub is_shared_key : List Fields → String → Bool
unfolding same_as get_or_null
is_shared_key [] k = false
is_shared_key (r ∷ []) k = false
is_shared_key (r ∷ r' ∷ rs) k =
    not (is_empty_key (r ∷ r' ∷ rs) k)
    && not (is_null (get_or_null k r))
    && same_as (get_or_null k r) k (r' ∷ rs)

-- `{k: v for k, v in r.items() if test(k)}`
unfoldable pub keep_keys : (String → Bool) → Fields → Fields
keep_keys test end = end
keep_keys test (field k v fs) =
    let rest = keep_keys test fs in if test k then field k v rest else rest

-- The two passes that lose nothing: the records without the empty and the shared fields.
unfoldable pub trim_record : List Fields → Fields → Fields
unfolding keep_keys is_empty_key is_shared_key
trim_record rs r = keep_keys (λ k. not (is_empty_key rs k) && not (is_shared_key rs k)) r

unfoldable pub trim : List Fields → List Fields
unfolding trim_record
trim rs = map (trim_record rs) rs

-- `shared`: the fields taken out of every record, with their value in the first one.
unfoldable pub shared_from : List Fields → Fields → List String → Fields
unfolding is_shared_key get_or_null
shared_from rs first [] = end
shared_from rs first (k ∷ ks) =
    let rest = shared_from rs first ks in
    if is_shared_key rs k then field k (get_or_null k first) rest else rest

unfoldable pub shared_fields : List Fields → Fields
unfolding shared_from all_keys
shared_fields [] = end
shared_fields (r ∷ rs) = shared_from (r ∷ rs) r (all_keys [] (r ∷ rs))

insert_key : String → List String → List String
unfolding text_before codes
insert_key k [] = k ∷ []
insert_key k (j ∷ js) =
    let later = insert_key k js in if text_before (codes j) (codes k) then j ∷ later else k ∷ j ∷ js

unfoldable pub sort_keys : List String → List String
unfolding insert_key
sort_keys [] = []
sort_keys (k ∷ ks) = insert_key k (sort_keys ks)

-- `len(compact_json(r.get(k)))`, for all records.
weight : List Fields → String → ℕ
unfolding compact_json get_or_null
weight [] k = 0
weight (r ∷ rs) k = length (compact_json (get_or_null k r)) + weight rs k

sum_weights : List Fields → List String → ℕ
unfolding weight
sum_weights rs [] = 0
sum_weights rs (k ∷ ks) = weight rs k + sum_weights rs ks

-- `v / body > 0.4`
is_dominant : List Fields → List String → String → Bool
unfolding sum_weights weight
is_dominant rs remaining k = ltb (4 * max 1 (sum_weights rs remaining)) (10 * weight rs k)

held_keys : List Fields → List String → List String
unfolding keep_field is_dominant
held_keys rs remaining =
    keep (λ k. not (keep_field k) && not (is_dominant rs remaining k)) remaining

key_list : List String → Value
unfolding codes
key_list ks = list (of_items (map (λ k. str (codes k)) ks))

unfoldable pub lossless_notes : List Fields → Fields
unfolding key_list sort_keys all_keys shared_fields is_empty_key
lossless_notes rs =
    let empty_keys = keep (is_empty_key rs) (all_keys [] rs) in
    let shared = shared_fields rs in
    let shared_note =
      if truthy (dict shared) then field "shared_fields" (dict shared) end else end in
    if is_empty empty_keys
    then shared_note
    else field "omitted_empty_fields" (key_list (sort_keys empty_keys)) shared_note

-- The third pass, on the trimmed records and the notes so far; `reason` is the text of the note.
unfoldable pub hold_back : Text → List Fields → Fields → List Fields × Fields
unfolding all_keys held_keys keep_keys keep_field is_condition in_keys key_list sort_keys set
hold_back reason trimmed notes =
    let remaining = all_keys [] trimmed in
    let held = held_keys trimmed remaining in
    if is_empty held || not (any (λ k. not (in_keys k held) && is_condition k) remaining)
    then (trimmed, notes)
    else (
      map (keep_keys keep_field) trimmed,
      set "omitted_fields_reason" (str reason)
          (set "omitted_fields" (key_list (sort_keys held)) notes),
    )

-- `_compact_records`, for records that are all objects.
unfoldable pub compact_records :
    Text → (List Fields → Fields → Bool) → List Fields → List Fields × Fields
unfolding trim lossless_notes hold_back
compact_records reason budget_fits [] = ([], end)
compact_records reason budget_fits (r ∷ rs) =
    let trimmed = trim (r ∷ rs) in
    let notes = lossless_notes (r ∷ rs) in
    if budget_fits trimmed notes then (trimmed, notes) else hold_back reason trimmed notes
