-- ===== src/Tools/Monitoring/Pivot.antt =====
-- tools/monitoring.py: `_metric_series`, `_pivot_lqm` and `_pivot_probe`.
use prisma_sdwan_mcp.Prelude.{
  if◌then◌else◌, String, Bool, true, false, ◌&&◌, ◌||◌, List, [], ◌∷◌, ◌++◌,
}
use prisma_sdwan_mcp.Prelude.Text.{Text, codes, text_eq}
use prisma_sdwan_mcp.Prelude.Result.{Result, err, ok}
use prisma_sdwan_mcp.Errors.{Failure}
use prisma_sdwan_mcp.Value.{
  Value, list, dict, Fields, end, field, of_items, is_null, get_or_null, set, truthy, dicts,
}
use prisma_sdwan_mcp.Value.Names.{name_of}
use prisma_sdwan_mcp.Resolver.Records.{records, project, to_text}
use prisma_sdwan_mcp.Common.{merge_fields}
use prisma_sdwan_mcp.Tools.{first_truthy, iterate_or_empty}

-- The objects of `fs.get(key) or []`.
unfoldable pub dicts_in : String → Fields → Result Failure (List Fields)
dicts_in key fs = elim (iterate_or_empty (get_or_null key fs)) [
  | err e ↦ err e
  | ok vs ↦ ok (dicts (of_items vs))
]

-- `for x in xs: out.extend(f(x))`
unfoldable pub collect :
    {A B : Type 0} → (A → Result Failure (List B)) → List A → Result Failure (List B)
collect f [] = ok []
collect f (x ∷ xs) = elim (f x) [
  | err e ↦ err e
  | ok ys ↦ elim (collect f xs) [ err e ↦ err e | ok zs ↦ ok (ys ++ zs) ]
]

series_row : Value → Fields → Result Failure (List Fields)
unfolding project merge_fields get_or_null set
series_row metric_name series = elim (dicts_in "data" series) [
  | err e ↦ err e
  | ok blocks ↦ elim (collect (λ block. iterate_or_empty (get_or_null "datapoints" block)) blocks) [
    | err e ↦ err e
    | ok points ↦ ok (
        set "datapoints" (list (of_items points)) (
          merge_fields (field "metric" metric_name end) (
            project
              ("wan_interface_id" ∷ "waninterface_id" ∷ "path_id" ∷ "element_id" ∷ "site_id"
                ∷ "name" ∷ [])
              series))
        ∷ [])
  ]
]

metric_rows : Fields → Result Failure (List Fields)
unfolding series_row get_or_null
metric_rows metric = elim (dicts_in "series" metric) [
  | err e ↦ err e
  | ok series ↦ collect (series_row (get_or_null "name" metric)) series
]

-- `out or records(data)`
or_records : Value → List Fields → List Fields
unfolding records
or_records data_ [] = records data_
or_records data_ (r ∷ rs) = r ∷ rs

-- `_metric_series`
unfoldable pub metric_series : Value → Result Failure (List Fields)
unfolding metric_rows or_records
metric_series (dict fs) = elim (dicts_in "metrics" fs) [
  | err e ↦ err e
  | ok metrics ↦ elim (collect metric_rows metrics) [
    | err e ↦ err e
    | ok rows ↦ ok (or_records (dict fs) rows)
  ]
]
metric_series v = ok (records v)

-- The rows of a pivot, each under its key.
abbrev pub Rows : Type 0
Rows = List (List Text × Fields)

unfoldable pub same_key : List Text → List Text → Bool
same_key [] [] = true
same_key (s ∷ ss) (t ∷ ts) = text_eq s t && same_key ss ts
same_key _ _ = false

-- `rows.setdefault(key, first)[name] = value`
unfoldable pub put_entry : List Text → Fields → String → Value → Rows → Rows
put_entry key first name value [] = (key, set name value first) ∷ []
put_entry key first name value ((k, fs) ∷ rows) =
    let later = put_entry key first name value rows in
    if same_key k key then (k, set name value fs) ∷ rows else (k, fs) ∷ later

-- One entry of a pivot: the row's key, the row if it is new, and the name and the value.
pub record Entry : Type 0 where
  pub key : List Text
  pub first : Fields
  pub name : String
  pub value : Value

unfoldable pub pivot : List Entry → Rows → Rows
pivot [] rows = rows
pivot (e ∷ es) rows = pivot es (put_entry e.key e.first e.name e.value rows)

unfoldable pub row_values : Rows → List Fields
row_values [] = []
row_values ((k, fs) ∷ rows) = fs ∷ row_values rows

module _ (repr : Value → Text) where
  -- The entry of a path that has an id.
  lqm_entry : Value → Fields → List Entry
  unfolding get_or_null to_text name_of
  lqm_entry metric_name path =
      let path_id = get_or_null "path_id" path in
      if is_null path_id
      then []
      else record {
        key = to_text repr path_id ∷ [];
        first =
            field "path_id" path_id
              (field "remote_site_id" (get_or_null "remote_site_id" path) end);
        name = name_of (to_text repr metric_name);
        value = get_or_null "data" path;
      }
        ∷ []

  -- The entries of the paths of a site of a metric.
  site_entries :
      String → (Fields → Result Failure (List Entry)) → Fields → Result Failure (List Entry)
  site_entries key entries_of site = elim (dicts_in key site) [
    | err e ↦ err e
    | ok paths ↦ collect entries_of paths
  ]

  metric_entries :
      String → (Value → Fields → Result Failure (List Entry)) → Fields → Result Failure (List Entry)
  unfolding site_entries get_or_null
  metric_entries key entries_of metric = elim (dicts_in "sites" metric) [
    | err e ↦ err e
    | ok sites ↦ collect (site_entries key (entries_of (get_or_null "name" metric))) sites
  ]

  pivot_metrics :
      String → (Value → Fields → Result Failure (List Entry)) → Value → Result Failure (List Fields)
  unfolding metric_entries
  pivot_metrics key entries_of (dict fs) = elim (dicts_in "metrics" fs) [
    | err e ↦ err e
    | ok metrics ↦ elim (collect (metric_entries key entries_of) metrics) [
      | err e ↦ err e
      | ok entries ↦ ok (row_values (pivot entries []))
    ]
  ]
  pivot_metrics key entries_of v = ok (records v)

  -- `_pivot_lqm`
  unfoldable pub pivot_lqm : Value → Result Failure (List Fields)
  unfolding pivot_metrics lqm_entry
  pivot_lqm = pivot_metrics "paths" (λ metric_name path. ok (lqm_entry metric_name path))

  -- The entry of a data point that has a path and a probe.
  probe_entry : Value → Fields → List Entry
  unfolding get_or_null to_text name_of first_truthy truthy codes
  probe_entry metric_name point =
      let path_id = get_or_null "path_id" point in
      let probe_id = get_or_null "probe_config_id" point in
      let endpoint = first_truthy ("endpoint_ipv4" ∷ "endpoint_fqdn" ∷ []) point in
      if is_null path_id || is_null probe_id
      then []
      else record {
        key =
            to_text repr path_id
            ∷ to_text repr probe_id
            ∷ (if truthy endpoint then to_text repr endpoint else codes "unknown")
            ∷ [];
        first = field "path_id" path_id (
            field "probe_config_id" probe_id (
              field "endpoint_ipv4" (get_or_null "endpoint_ipv4" point) (
                field "endpoint_fqdn" (get_or_null "endpoint_fqdn" point)
                  (field "protocol" (get_or_null "protocol" point) end))));
        name = name_of (to_text repr metric_name);
        value = get_or_null "data" point;
      }
        ∷ []

  probe_entries : Value → Fields → Result Failure (List Entry)
  unfolding probe_entry
  probe_entries metric_name path = elim (dicts_in "datapoints" path) [
    | err e ↦ err e
    | ok points ↦ collect (λ point. ok (probe_entry metric_name point)) points
  ]

  -- `_pivot_probe`
  unfoldable pub pivot_probe : Value → Result Failure (List Fields)
  unfolding pivot_metrics probe_entries
  pivot_probe = pivot_metrics "wn_paths" probe_entries
