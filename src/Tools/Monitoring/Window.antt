-- ===== src/Tools/Monitoring/Window.antt =====
-- tools/monitoring.py: `_window`, `_snapshot_anchor` and `_event_payload`. Times are microseconds since
-- the epoch, and `hours` is a span of microseconds.
use prisma_sdwan_mcp.Prelude.{
  ltb, leb, ◌==◌, if◌then◌else◌, is_empty, ℕ, ◌-◌, ◌*◌, String, not, ◌||◌, Option, none, some, List,
  [], ◌∷◌, ◌++◌, map,
}
use prisma_sdwan_mcp.Prelude.Text.{Text, codes, strip}
use prisma_sdwan_mcp.Prelude.Int.{ℤ, pos, negsuc, below}
use prisma_sdwan_mcp.Prelude.Result.{Result, err, ok}
use prisma_sdwan_mcp.Value.{
  Value, int, str, list, dict, Fields, end, field, nil, cons, of_items, set, truthy,
}
use prisma_sdwan_mcp.Resolver.{given}
use prisma_sdwan_mcp.Cli.Address.{split_on}

-- What the module uses of datetime: `fromisoformat` on a text whose `Z` is written out, in UTC, the
-- text of a time in TIME_FORMAT, and the present.
pub record Calendar : Type 0 where
  pub from_iso : Text → Option ℕ
  pub format : ℕ → Text
  pub present : ℕ

-- `text.replace("Z", "+00:00")`
unfoldable pub write_out_z : Text → Text
unfolding codes
write_out_z [] = []
write_out_z (c ∷ s) =
    let rest = write_out_z s in if c == b'Z' then codes "+00:00" ++ rest else c ∷ rest

-- `_parse_iso`
unfoldable pub parse_iso : Calendar → Text → Option ℕ
parse_iso cal s = if is_empty (strip s) then none else cal.from_iso (write_out_z (strip s))

abbrev pub hour : ℕ
hour = 3_600_000_000

abbrev pub relative_hours_cap : ℕ
relative_hours_cap = 168

pub record Window : Type 0 where
  pub start_time : Text
  pub end_time : Text
  pub source : String

unfoldable pub window_value : Window → Value
window_value w = dict (
    field "start_time" (str w.start_time)
      (field "end_time" (str w.end_time) (field "source" (str (codes w.source)) end)))

unfoldable pub relative_window : Calendar → ℤ → Result String Window
relative_window cal (pos span) =
    if leb span 0 || ltb (relative_hours_cap * hour) span
    then err "hours must be greater than 0 and no more than 168"
    else ok (record {
      start_time = cal.format (cal.present - span);
      end_time = cal.format cal.present;
      source = "relative_hours";
    })
relative_window cal (negsuc span) = err "hours must be greater than 0 and no more than 168"

unfoldable pub explicit_window : Calendar → Option ℕ → Option ℕ → Result String Window
explicit_window cal (some start) (some stop) =
    if leb stop start
    then err "start_time must be earlier than end_time"
    else ok
        (record { start_time = cal.format start; end_time = cal.format stop; source = "explicit" })
explicit_window cal _ _ = err "start_time/end_time must be ISO 8601 timestamps"

-- `_window`; an error is the message of a ValueError.
unfoldable pub window_of : Calendar → ℤ → Option Text → Option Text → Result String Window
window_of cal hours none none = relative_window cal hours
window_of cal hours (some start) (some stop) =
    explicit_window cal (parse_iso cal start) (parse_iso cal stop)
window_of cal hours _ _ = err "start_time and end_time must both be supplied"

abbrev point_metric_lag : ℕ
point_metric_lag = 300_000_000

-- `_snapshot_anchor`
unfoldable pub snapshot_anchor : Calendar → Text → Text
snapshot_anchor cal stop = elim (parse_iso cal stop) [
  | none ↦ stop
  | some t ↦ cal.format (t - point_metric_lag)
]

-- `{key: [value]}`, if the value is given.
unfoldable pub one_of : String → Value → Fields → Fields
one_of key v fs = if truthy v then set key (list (cons v nil)) fs else fs

not_blank : List Text → List Text
not_blank [] = []
not_blank (s ∷ ss) = let rest = not_blank ss in if is_empty (strip s) then rest else strip s ∷ rest

severity_values : List Text → Option Text → Result String (List Text)
unfolding given split_on not_blank
severity_values default severity = elim (given severity) [
  | none ↦ ok default
  | some s ↦ elim (not_blank (split_on b',' s)) [
    | [] ↦ err "severity cannot be empty"
    | v ∷ vs ↦ ok (v ∷ vs)
  ]
]

given_entry : String → Option Text → Fields → Fields
unfolding given set
given_entry key value fs = elim (given value) [ none ↦ fs | some s ↦ set key (str s) fs ]

base_payload : List Text → ℤ → Fields
unfolding codes
base_payload severities limit = field "severity" (list (of_items (map str severities))) (
    field "limit"
      (dict (
        field "count" (int limit) (
          field "sort_on" (str (codes "time"))
            (field "sort_order" (str (codes "descending")) end))))
      end)

-- `_event_payload`
unfoldable pub event_payload :
    List Text → ℤ → Value → Value → Option Text → Option Text → Option Text → Result String Fields
unfolding severity_values base_payload given_entry
event_payload default limit site_id element_id severity start_time end_time =
    if below limit 1 || not (below limit 101)
    then err "limit must be between 1 and 100"
    else elim (severity_values default severity) [
      | err e ↦ err e
      | ok severities ↦
          let query = one_of "element" element_id (one_of "site" site_id end) in
          let base = base_payload severities limit in
          ok (
            given_entry "end_time" end_time (
              given_entry "start_time" start_time
                (if truthy (dict query) then set "query" (dict query) base else base)))
    ]
