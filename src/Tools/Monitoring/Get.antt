-- ===== src/Tools/Monitoring/Get.antt =====
-- tools/monitoring.py: `get_monitoring`.
use prisma_sdwan_mcp.Prelude.{
  if◌then◌else◌, String, Bool, true, false, none, some, List, [], ◌∷◌, ◌++◌, map,
}
use prisma_sdwan_mcp.Prelude.Text.{Text, codes, text_eq}
use prisma_sdwan_mcp.Prelude.Int.{ℤ}
use prisma_sdwan_mcp.Prelude.Result.{Result, err, ok}
use prisma_sdwan_mcp.Errors.{Failure, unexpected}
use prisma_sdwan_mcp.Value.{
  Value, bool, int, str, list, dict, Fields, end, field, items, of_items, truthy,
}
use prisma_sdwan_mcp.Resolver.Records.{records, to_text}
use prisma_sdwan_mcp.Resolver.{given, SiteElement}
use prisma_sdwan_mcp.Common.{handle_error}
use prisma_sdwan_mcp.Response.{structured_error}
use prisma_sdwan_mcp.Response.Envelope.{count}
use prisma_sdwan_mcp.Tools.{Log, Toolbox, Step, return, raising, ◌>>=◌, execute, ids_if_given}
use prisma_sdwan_mcp.Tools.Replies.{invalid_argument, quoted, listing, single, unless_failed}
use prisma_sdwan_mcp.Tools.Monitoring.Window.{
  Calendar, Window, window_value, window_of, snapshot_anchor, one_of, event_payload,
}
use prisma_sdwan_mcp.Tools.Monitoring.Flows.{flow_items}
use prisma_sdwan_mcp.Tools.Monitoring.Pivot.{metric_series, pivot_lqm, pivot_probe}
use prisma_sdwan_mcp.Tools.Monitoring.Asked.{
  tool, Dataset, Monitoring, events, alarms, flows, link_metrics, probe_metrics, dataset,
  dataset_name, dataset_action, Question, min_int, lqm_metrics, probe_metric_list,
  bandwidth_metrics, flow_filters, flow_body, metric_body, marked_digest,
}

module _ (b : Toolbox) (cal : Calendar) (truncate : Text → ℤ) where
  -- The message of a ValueError that the tool itself raises, as its reply.
  unfoldable pub or_invalid : {A : Type 0} → Result String A → (A → Step Fields) → Step Fields
  or_invalid (err message) next = return (invalid_argument message tool)
  or_invalid (ok a) next = next a

  event_defaults : Monitoring → List Text
  unfolding codes
  event_defaults alarms = codes "major" ∷ codes "critical" ∷ []
  event_defaults operation = codes "critical" ∷ codes "major" ∷ codes "minor" ∷ []

  unfoldable pub event_name : Monitoring → String
  event_name alarms = "alarms"
  event_name operation = "events"

  windowed : Question → Bool
  unfolding given
  windowed q = elim (given q.start_time) [
    | none ↦ false
    | some s ↦ elim (given q.end_time) [ none ↦ false | some e ↦ true ]
  ]

  unfoldable pub event_log : Monitoring → Question → SiteElement → Step Fields
  unfolding event_defaults event_name windowed codes
  event_log operation q ids =
      or_invalid
        (event_payload (event_defaults operation) (min_int q.limit 100) ids.site_id ids.element_id
          q.severity q.start_time q.end_time)
        λ body. (do
          data_ ← execute b "compat.events_query" end (some body)
          unless_failed b tool data_ (
              listing b tool
                (codes "Recent "
                  ++ (codes (event_name operation)
                      ++ codes "; use an explicit time window for incident investigation"))
                (event_name operation)
                (record { cursor = q.cursor; limit = int (min_int q.limit 100) })
                (field "site_id" ids.site_id
                  (field "element_id" ids.element_id (field "windowed" (bool (windowed q)) end)))
                none false (map dict (records data_))))

  unfoldable pub flow_extra : Question → SiteElement → Window → Fields
  flow_extra q ids w =
      field "window" (window_value w) (field "filters" (dict (flow_filters q ids)) end)

  unfoldable pub reply_flows : Question → SiteElement → Window → List Fields → Step Fields
  unfolding flow_extra codes quoted to_text
  reply_flows q ids w rows =
      if q.raw
      then listing b tool (codes "Raw flows for site " ++ quoted (to_text b.repr ids.site_id))
          "flows" (record { cursor = q.cursor; limit = int (min_int q.limit 200) })
          (flow_extra q ids w) none false (map dict rows)
      else single b tool (codes "Flow digest for site " ++ quoted (to_text b.repr ids.site_id))
          "digest" (dict (marked_digest b.repr truncate rows)) (flow_extra q ids w)

  unfoldable pub flow_report : Question → SiteElement → Step Fields
  unfolding flow_body reply_flows
  flow_report q ids =
      if truthy ids.site_id
      then or_invalid (window_of cal q.hours q.start_time q.end_time) (λ w. do
        data_ ← execute b "compat.monitor_flows" end (some (flow_body q ids w))
        unless_failed b tool data_ (reply_flows q ids w (flow_items data_)))
      else return (invalid_argument "site is required for flows" tool)

  -- The two reads of the link metrics; an error of the controller is not looked for.
  unfoldable pub link_report : Question → SiteElement → Window → Step Fields
  unfolding metric_body bandwidth_metrics lqm_metrics codes quoted to_text
  link_report q ids w = do
    let anchor = snapshot_anchor cal w.end_time
    let site_filter = field "site" (list (of_items (ids.site_id ∷ []))) end
    bandwidth ← execute b "compat.monitor_metrics" end (
        some (
          metric_body (("start_time", str w.start_time) ∷ ("end_time", str w.end_time) ∷ [])
            bandwidth_metrics (one_of "element" ids.element_id site_filter)))
    lqm ←
        execute b "compat.monitor_lqm_point_metrics" end
          (some (metric_body (("start_time", str anchor) ∷ []) lqm_metrics site_filter))
    series ← raising (metric_series bandwidth)
    quality ← raising (if q.raw then metric_series lqm else pivot_lqm b.repr lqm)
    single b tool (codes "Recorded link metrics for site " ++ quoted (to_text b.repr ids.site_id))
        "metrics"
        (dict (
          field "bandwidth" (list (of_items (map dict series))) (
            field "link_quality" (list (of_items (map dict quality))) (
              field "window" (window_value w) (
                field "snapshot_time" (str anchor) (field "recorded_telemetry" (bool true) end))))))
        end

  unfoldable pub probe_report : Question → SiteElement → Window → Step Fields
  unfolding metric_body probe_metric_list codes quoted to_text
  probe_report q ids w = do
    let anchor = snapshot_anchor cal w.end_time
    probe ← execute b "compat.monitor_probe_point_metrics" end (
        some (
          metric_body (("start_time", str anchor) ∷ []) probe_metric_list
            (field "site" (list (of_items (ids.site_id ∷ []))) end)))
    unless_failed b tool probe (do
      rows ← raising (if q.raw then metric_series probe else pivot_probe b.repr probe)
      listing b tool
          (codes "Recorded probe metrics for site " ++ quoted (to_text b.repr ids.site_id)) "probes"
          (record { cursor = q.cursor; limit = int q.limit })
          (field "window" (window_value w)
            (field "snapshot_time" (str anchor) (field "recorded_telemetry" (bool true) end)))
          none false (map dict rows))

  unfoldable pub metric_report :
      (Question → SiteElement → Window → Step Fields) → Question → SiteElement → Step Fields
  metric_report report q ids =
      if truthy ids.site_id
      then or_invalid (window_of cal q.hours q.start_time q.end_time) (report q ids)
      else return (invalid_argument "site is required for metric operations" tool)

  dataset_summary : Dataset → Text
  unfolding codes quoted
  dataset_summary d = codes "Monitoring operation " ++ quoted (codes (dataset_name d))

  unfoldable pub dataset_items : Dataset → Question → List Value → Step Fields
  unfolding dataset_summary
  dataset_items d q vs =
      listing b tool (dataset_summary d) "items" (record { cursor = q.cursor; limit = int q.limit })
        end none false vs

  unfoldable pub reply_dataset : Dataset → Question → Value → List Fields → Step Fields
  unfolding dataset_items dataset_summary
  reply_dataset d q data_ (r ∷ rs) = dataset_items d q (map dict (r ∷ rs))
  reply_dataset d q (list vs) [] = dataset_items d q (items vs)
  reply_dataset d q data_ [] = single b tool (dataset_summary d) "result" data_ end

  unfoldable pub report : Monitoring → Question → SiteElement → Step Fields
  unfolding event_log flow_report metric_report probe_report reply_dataset
  report events q ids = event_log events q ids
  report alarms q ids = event_log alarms q ids
  report flows q ids = flow_report q ids
  report link_metrics q ids = metric_report link_report q ids
  report probe_metrics q ids = metric_report probe_report q ids
  report (dataset d) q ids = do
    data_ ← execute b (dataset_action d) end none
    unless_failed b tool data_ (reply_dataset d q data_ (records data_))

  -- `except ValueError`, in front of what `handle_error` is given.
  unfoldable pub handle_value_error : Failure → Fields
  unfolding codes structured_error handle_error
  handle_value_error (unexpected name) =
      if text_eq name (codes "ValueError")
      then structured_error (codes "invalid_argument") (b.text (unexpected name)) tool (count 400)
          end
      else handle_error b.text tool (unexpected name) end
  handle_value_error e = handle_error b.text tool e end

  unfoldable pub get_monitoring : Monitoring → Question → Log → Fields × Log
  unfolding report
  get_monitoring operation q log =
      let run : Step Fields = ids_if_given b q.site q.element >>= λ ids. report operation q ids in
      elim ((run log).0) [
        | ok reply ↦ (reply, (run log).1)
        | err e ↦ (handle_value_error e, (run log).1)
      ]
