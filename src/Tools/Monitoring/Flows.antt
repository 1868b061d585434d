-- ===== src/Tools/Monitoring/Flows.antt =====
-- tools/monitoring.py: `_flow_items` and `_flow_digest`. `truncate` is Python's `int` of a float.
use prisma_sdwan_mcp.Prelude.{
  ltb, leb, if◌then◌else◌, length, take, is_empty, ℕ, ◌+◌, ◌-◌, String, Bool, true, false, ◌&&◌,
  Option, none, some, List, [], ◌∷◌, map,
}
use prisma_sdwan_mcp.Prelude.Text.{Text, codes, text_eq}
use prisma_sdwan_mcp.Prelude.Int.{ℤ, pos, negsuc, parse_int}
use prisma_sdwan_mcp.Value.{
  Value, null, bool, int, real, str, list, dict, Fields, end, field, Items, of_items, get,
  get_or_null, truthy, dicts,
}
use prisma_sdwan_mcp.Resolver.Records.{list_at, to_text}
use prisma_sdwan_mcp.Common.{Counts, count_one}
use prisma_sdwan_mcp.Response.Envelope.{count}
use prisma_sdwan_mcp.Tools.{first_truthy, counts_value}

-- `data["flows"]["items"]`, if the flows are an object with a list.
nested_items : Fields → Option Items
unfolding get list_at
nested_items fs = elim (get "flows" fs) [ some (dict flows) ↦ list_at "items" flows | _ ↦ none ]

-- `_flow_items`
unfoldable pub flow_items : Value → List Fields
unfolding nested_items
flow_items (list vs) = dicts vs
flow_items (dict fs) = elim (nested_items fs) [
  | some vs ↦ dicts vs
  | none ↦ elim (list_at "items" fs) [ some vs ↦ dicts vs | none ↦ [] ]
]
flow_items v = []

unfoldable pub add_int : ℤ → ℤ → ℤ
add_int (pos m) (pos n) = pos (m + n)
add_int (negsuc m) (negsuc n) = negsuc (m + n + 1)
add_int (pos m) (negsuc n) = if ltb n m then pos (m - (n + 1)) else negsuc (n - m)
add_int (negsuc m) (pos n) = if ltb m n then pos (n - (m + 1)) else negsuc (m - n)

unfoldable pub less_int : ℤ → ℤ → Bool
less_int (pos m) (pos n) = ltb m n
less_int (negsuc m) (negsuc n) = ltb n m
less_int (negsuc m) (pos n) = true
less_int (pos m) (negsuc n) = false

-- `int(value or 0)`; `none` stands for TypeError and ValueError.
unfoldable pub int_or_zero : (Text → ℤ) → Value → Option ℤ
int_or_zero truncate (int z) = some z
int_or_zero truncate (bool b) = some (if b then pos 1 else pos 0)
int_or_zero truncate null = some (pos 0)
int_or_zero truncate (real t) = some (if truthy (real t) then truncate t else pos 0)
int_or_zero truncate (str s) = if is_empty s then some (pos 0) else parse_int s
int_or_zero truncate (list vs) = if truthy (list vs) then none else some (pos 0)
int_or_zero truncate (dict fs) = if truthy (dict fs) then none else some (pos 0)

-- What two ends exchanged.
pub record Talker : Type 0 where
  pub src_ip : Text
  pub dst_ip : Text
  pub bytes_c2s : ℤ
  pub bytes_s2c : ℤ
  pub total_bytes : ℤ

unfoldable pub add_traffic : Text → Text → ℤ → ℤ → List Talker → List Talker
add_traffic src dst c2s s2c [] =
    record {
      src_ip = src;
      dst_ip = dst;
      bytes_c2s = c2s;
      bytes_s2c = s2c;
      total_bytes = add_int c2s s2c;
    }
    ∷ []
add_traffic src dst c2s s2c (t ∷ ts) =
    let later = add_traffic src dst c2s s2c ts in
    if text_eq t.src_ip src && text_eq t.dst_ip dst
    then record {
      src_ip = t.src_ip;
      dst_ip = t.dst_ip;
      bytes_c2s = add_int t.bytes_c2s c2s;
      bytes_s2c = add_int t.bytes_s2c s2c;
      total_bytes = add_int t.total_bytes (add_int c2s s2c);
    }
      ∷ ts
    else t ∷ later

module _ (repr : Value → Text) (truncate : Text → ℤ) where
  -- `str(row.get(k1) or row.get(k2) or "unknown")`
  unfoldable pub label : List String → Fields → Text
  unfolding codes
  label ks row = let v = first_truthy ks row in if truthy v then to_text repr v else codes "unknown"

  -- The two byte counts of a row: both are 0 if one of them is no number.
  unfoldable pub traffic : Fields → ℤ × ℤ
  traffic row = elim (int_or_zero truncate (get_or_null "bytes_c2s" row)) [
    | none ↦ (pos 0, pos 0)
    | some c2s ↦ elim (int_or_zero truncate (get_or_null "bytes_s2c" row)) [
      | none ↦ (pos 0, pos 0)
      | some s2c ↦ (c2s, s2c)
    ]
  ]

  -- `Counter` over the labels of the rows.
  unfoldable pub count_labels : List String → List Fields → Counts → Counts
  count_labels ks [] counts = counts
  count_labels ks (row ∷ rows) counts = count_labels ks rows (count_one (label ks row) counts)

  unfoldable pub talkers_from : List Fields → List Talker → List Talker
  talkers_from [] ts = ts
  talkers_from (row ∷ rows) ts = talkers_from rows (
      add_traffic (label ("src_ip" ∷ "source_ip" ∷ []) row)
        (label ("dst_ip" ∷ "destination_ip" ∷ []) row) (traffic row).0 (traffic row).1 ts)

-- `Counter.most_common()`: by the number, the greatest first; those that are equal keep their order.
unfoldable pub insert_common : Text × ℕ → Counts → Counts
insert_common c [] = c ∷ []
insert_common c (d ∷ ds) =
    let later = insert_common c ds in if leb d.1 c.1 then c ∷ d ∷ ds else d ∷ later

unfoldable pub most_common : Counts → Counts
most_common [] = []
most_common (c ∷ cs) = insert_common c (most_common cs)

-- `sorted(…, key=total_bytes, reverse=True)`
unfoldable pub insert_talker : Talker → List Talker → List Talker
insert_talker t [] = t ∷ []
insert_talker t (u ∷ us) =
    let later = insert_talker t us in
    if less_int t.total_bytes u.total_bytes then u ∷ later else t ∷ u ∷ us

unfoldable pub sort_talkers : List Talker → List Talker
sort_talkers [] = []
sort_talkers (t ∷ ts) = insert_talker t (sort_talkers ts)

talker_value : Talker → Value
talker_value t = dict (
    field "src_ip" (str t.src_ip) (
      field "dst_ip" (str t.dst_ip) (
        field "bytes_c2s" (int t.bytes_c2s)
          (field "bytes_s2c" (int t.bytes_s2c) (field "total_bytes" (int t.total_bytes) end)))))

abbrev pub top_talkers_limit : ℕ
top_talkers_limit = 10

-- `_flow_digest`
unfoldable pub flow_digest : (Value → Text) → (Text → ℤ) → List Fields → Fields
unfolding talker_value
flow_digest repr truncate rows =
    let by : List String → Value =
      λ ks. dict (counts_value (most_common (count_labels repr truncate ks rows []))) in
    field "sample_count" (count (length rows)) (
      field "by_app" (by ("app_id" ∷ "fc_app_id" ∷ [])) (
        field "by_path" (by ("path_id" ∷ [])) (
          field "by_action" (by ("flow_action" ∷ [])) (
            field "top_talkers"
              (list (
                of_items (
                  map talker_value
                    (take top_talkers_limit (sort_talkers (talkers_from repr truncate rows []))))))
              end))))
