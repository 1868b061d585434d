-- ===== src/Tools/Monitoring/Asked.antt =====
-- tools/monitoring.py: what `get_monitoring` is asked, and the bodies of its requests.
use prisma_sdwan_mcp.Prelude.{
  ltb, if◌then◌else◌, length, ℕ, min, String, Bool, Option, none, some, List, [], ◌∷◌, map,
}
use prisma_sdwan_mcp.Prelude.Text.{Text, codes, strip}
use prisma_sdwan_mcp.Prelude.Int.{ℤ, pos, negsuc}
use prisma_sdwan_mcp.Value.{Value, bool, int, str, list, dict, Fields, end, field, of_items, set}
use prisma_sdwan_mcp.Resolver.{given, SiteElement}
use prisma_sdwan_mcp.Response.Envelope.{count}
use prisma_sdwan_mcp.Tools.Monitoring.Window.{Window, one_of}
use prisma_sdwan_mcp.Tools.Monitoring.Flows.{flow_digest}

abbrev pub tool : Text
tool = codes "get_monitoring"

-- `MonitoringOperation`: the seven datasets of the tenant are one constructor.
pub data Dataset : Type 0 where
  aiops_health aiops_anomaly aiops_forecast aiops_aggregates : Dataset
  system_metrics qos_metrics bandwidth_stats : Dataset

pub data Monitoring : Type 0 where
  events alarms flows link_metrics probe_metrics : Monitoring
  dataset : Dataset → Monitoring

unfoldable pub dataset_name : Dataset → String
dataset_name aiops_health = "aiops_health"
dataset_name aiops_anomaly = "aiops_anomaly"
dataset_name aiops_forecast = "aiops_forecast"
dataset_name aiops_aggregates = "aiops_aggregates"
dataset_name system_metrics = "system_metrics"
dataset_name qos_metrics = "qos_metrics"
dataset_name bandwidth_stats = "bandwidth_stats"

unfoldable pub dataset_action : Dataset → String
dataset_action aiops_health = "monitoring_aiops.monitor_aiops_health"
dataset_action aiops_anomaly = "monitoring_aiops.monitor_aiops_anomaly"
dataset_action aiops_forecast = "monitoring_aiops.monitor_aiops_forecast"
dataset_action aiops_aggregates = "monitoring_aiops.monitor_aiops_aggregates"
dataset_action system_metrics = "monitoring_aiops.monitor_sys_metrics"
dataset_action qos_metrics = "monitoring_aiops.monitor_qos_metrics"
dataset_action bandwidth_stats = "monitoring_aiops.monitor_agg_bw_stats"

-- The arguments of a call.
pub record Question : Type 0 where
  pub site : Option Text
  pub element : Option Text
  pub hours : ℤ
  pub start_time : Option Text
  pub end_time : Option Text
  pub severity : Option Text
  pub raw : Bool
  pub limit : ℤ
  pub cursor : Option Text
  pub app : Option Text
  pub path_id : Option Text
  pub waninterface_id : Option Text

-- `min(z, n)`
unfoldable pub min_int : ℤ → ℕ → ℤ
min_int (pos m) n = pos (min m n)
min_int (negsuc m) n = negsuc m

stats : String → String → List String → Value
unfolding codes
stats name unit statistics = dict (
    field "name" (str (codes name)) (
      field "unit" (str (codes unit))
        (field "statistics" (list (of_items (map (λ s. str (codes s)) statistics))) end)))

unfoldable pub lqm_metrics : Value
unfolding stats
lqm_metrics = list (
    of_items (
      stats "LqmLatencyPointMetric" "milliseconds" ("AVG" ∷ [])
      ∷ stats "LqmPktLossPointMetric" "percentage" ("AVG" ∷ [])
      ∷ stats "LqmJitterPointMetric" "milliseconds" ("AVG" ∷ [])
      ∷ stats "LqmMosPointMetric" "count" ("AVG" ∷ "MIN" ∷ "MAX" ∷ [])
      ∷ []))

unfoldable pub probe_metric_list : Value
unfolding stats
probe_metric_list = list (
    of_items (
      stats "ProbeLatencyPointMetric" "milliseconds" ("AVG" ∷ "MIN" ∷ "MAX" ∷ [])
      ∷ stats "ProbeJitterPointMetric" "milliseconds" ("AVG" ∷ "MIN" ∷ "MAX" ∷ [])
      ∷ stats "ProbePktLossPointMetric" "percentage" ("AVG" ∷ "MIN" ∷ "MAX" ∷ [])
      ∷ []))

unfoldable pub bandwidth_metrics : Value
unfolding codes
bandwidth_metrics = list (
    of_items (
      dict (
        field "name" (str (codes "BandwidthUsage")) (
          field "statistics" (list (of_items (str (codes "average") ∷ [])))
            (field "unit" (str (codes "Mbps")) end)))
      ∷ []))

-- `{key: [text.strip()]}`, if the text is given.
stripped_filter : String → Option Text → Fields → Fields
unfolding given strip set
stripped_filter key value fs = elim (given value) [
  | none ↦ fs
  | some s ↦ set key (list (of_items (str (strip s) ∷ []))) fs
]

unfoldable pub flow_filters : Question → SiteElement → Fields
unfolding stripped_filter
flow_filters q ids = stripped_filter "wan_interface" q.waninterface_id (
    stripped_filter "path" q.path_id (
      stripped_filter "app" q.app
        (one_of "element" ids.element_id (field "site" (list (of_items (ids.site_id ∷ []))) end))))

abbrev pub flow_sample_cap : ℕ
flow_sample_cap = 500

unfoldable pub request_limit : Question → ℤ
request_limit q = if q.raw then min_int q.limit flow_sample_cap else pos flow_sample_cap

unfoldable pub flow_body : Question → SiteElement → Window → Fields
unfolding codes
flow_body q ids w = field "start_time" (str w.start_time) (
    field "end_time" (str w.end_time) (
      field "filter" (dict (flow_filters q ids)) (
        field "debug_level" (str (codes "all"))
          (field "page_size" (int (request_limit q)) (field "dest_page" (count 1) end)))))

unfoldable pub metric_body : List (String × Value) → Value → Fields → Fields
unfolding codes set
metric_body times metrics filters =
    set "filter" (dict filters)
      (set "metrics" metrics (set "interval" (str (codes "5min")) (times_of times)))
  where
    times_of : List (String × Value) → Fields
    times_of [] = end
    times_of ((k, v) ∷ rest) = field k v (times_of rest)

-- The digest, with the mark for a sample that reached the cap.
unfoldable pub marked_digest : (Value → Text) → (Text → ℤ) → List Fields → Fields
unfolding codes
marked_digest repr truncate rows =
    let complete = ltb (length rows) flow_sample_cap in
    let digest = set "complete" (bool complete) (flow_digest repr truncate rows) in
    if complete
    then digest
    else set "warning" (str (codes "digest is based on a capped sample, not the full window"))
        digest
