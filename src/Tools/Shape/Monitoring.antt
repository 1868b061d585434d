-- ===== src/Tools/Shape/Monitoring.antt =====
-- tools/monitoring.py: the reply of `get_monitoring`.
use prisma_sdwan_mcp.Prelude.{
  if◌then◌else◌, if_kept, String, ◌≡◌, refl, inl, inr, false, none, some, List, [], ◌∷◌, map,
}
use prisma_sdwan_mcp.Prelude.Int.{ℤ}
use prisma_sdwan_mcp.Prelude.Text.{Text, codes, text_eq}
use prisma_sdwan_mcp.Prelude.Result.{Result, err, ok, Result-cases}
use prisma_sdwan_mcp.Errors.{Failure, resolution, capability, registry, unexpected}
use prisma_sdwan_mcp.Value.{
  Value, null, bool, int, real, str, list, dict, Fields, end, items, get, has, truthy,
}
use prisma_sdwan_mcp.Resolver.Records.{records}
use prisma_sdwan_mcp.Resolver.{SiteElement}
use prisma_sdwan_mcp.Response.Envelope.{count}
use prisma_sdwan_mcp.Response.Shape.{IsError, IsReply, structured_error-IsError, IsApart}
use prisma_sdwan_mcp.Tools.{Log, Toolbox, Step, raising, ◌>>=◌, execute, ids_if_given}
use prisma_sdwan_mcp.Tools.Replies.{single}
use prisma_sdwan_mcp.Tools.Shape.{
  handle_error-IsError, refusal-IsError, apart, Yields, return-Yields, bind-Yields, refused-Yields,
  listing-Yields, single-Yields, unless_failed-Yields,
}
use prisma_sdwan_mcp.Tools.Monitoring.Window.{Calendar, Window}
use prisma_sdwan_mcp.Tools.Monitoring.Pivot.{metric_series, pivot_lqm, pivot_probe}
use prisma_sdwan_mcp.Tools.Monitoring.Asked.{
  tool, Dataset, Monitoring, events, alarms, flows, link_metrics, probe_metrics, dataset,
  dataset_action, Question,
}
use prisma_sdwan_mcp.Tools.Monitoring.Get.{
  or_invalid, event_name, event_log, flow_extra, reply_flows, flow_report, link_report,
  probe_report, metric_report, dataset_items, reply_dataset, report, handle_value_error,
  get_monitoring,
}

handle_value_error-IsError :
    (b : Toolbox) (cal : Calendar) (truncate : Text → ℤ) (e : Failure)
    → IsError tool (handle_value_error b cal truncate e)
unfolding handle_value_error
handle_value_error-IsError b cal truncate (unexpected name) =
    if_kept (IsError tool) (text_eq name (codes "ValueError")) _ _
      (structured_error-IsError (codes "invalid_argument") (b.text (unexpected name)) tool
        (count 400) end)
      (handle_error-IsError b.text tool (unexpected name) end)
handle_value_error-IsError b cal truncate (resolution m candidates) =
    handle_error-IsError b.text tool (resolution m candidates) end
handle_value_error-IsError b cal truncate (capability m) =
    handle_error-IsError b.text tool (capability m) end
handle_value_error-IsError b cal truncate (registry m) =
    handle_error-IsError b.text tool (registry m) end

module _ (b : Toolbox) (cal : Calendar) (truncate : Text → ℤ) where
  or_invalid-Yields :
      {A : Type 0} (r : Result String A) (next : A → Step Fields)
      → ((a : A) → Yields (IsReply tool) (next a))
      → Yields (IsReply tool) (or_invalid b cal truncate r next)
  unfolding or_invalid
  or_invalid-Yields (err message) next each =
      return-Yields (IsReply tool) _ (inr (refusal-IsError "invalid_argument" message tool 400))
  or_invalid-Yields (ok a) next each = each a

  -- The records stand under "alarms" or under "events".
  event-IsApart :
      (operation : Monitoring) (extra : Fields)
      → has "tool" extra ≡ false
      → has "contract_version" extra ≡ false
      → IsApart (event_name b cal truncate operation) extra
  unfolding event_name
  event-IsApart alarms extra h k = apart refl refl h k
  event-IsApart events extra h k = apart refl refl h k
  event-IsApart flows extra h k = apart refl refl h k
  event-IsApart link_metrics extra h k = apart refl refl h k
  event-IsApart probe_metrics extra h k = apart refl refl h k
  event-IsApart (dataset d) extra h k = apart refl refl h k

  event_log-Yields :
      (operation : Monitoring) (q : Question) (ids : SiteElement)
      → Yields (IsReply tool) (event_log b cal truncate operation q ids)
  unfolding event_log has get
  event_log-Yields operation q ids = or_invalid-Yields _ _ (λ body.
      bind-Yields (IsReply tool) (execute b "compat.events_query" end (some body)) _ (λ data_.
        unless_failed-Yields b tool data_ _ (
          listing-Yields b tool _ (event_name b cal truncate operation) _ _ none false _
            (event-IsApart operation _ refl refl))))

  flow_report-Yields :
      (q : Question) (ids : SiteElement) → Yields (IsReply tool) (flow_report b cal truncate q ids)
  unfolding flow_report reply_flows flow_extra has get
  flow_report-Yields q ids =
      if_kept (Yields (IsReply tool)) (truthy ids.site_id) _ _
        (or_invalid-Yields _ _ (λ w.
          bind-Yields (IsReply tool) (execute b "compat.monitor_flows" end _) _ (λ data_.
            unless_failed-Yields b tool data_ _ (
              if_kept (Yields (IsReply tool)) q.raw _ _
                (listing-Yields b tool _ "flows" _ _ none false _ (apart refl refl refl refl))
                (single-Yields b tool _ "digest" _ _ (apart refl refl refl refl))))))
        (refused-Yields "invalid_argument" "site is required for flows" tool 400)

  link_report-Yields :
      (q : Question) (ids : SiteElement) (w : Window)
      → Yields (IsReply tool) (link_report b cal truncate q ids w)
  unfolding link_report has get
  link_report-Yields q ids w =
      bind-Yields (IsReply tool) (execute b "compat.monitor_metrics" end _) _ (λ bandwidth.
        bind-Yields (IsReply tool) (execute b "compat.monitor_lqm_point_metrics" end _) _ (λ lqm.
          bind-Yields (IsReply tool) (raising (metric_series bandwidth)) _ (λ series.
            bind-Yields (IsReply tool)
              (raising (if q.raw then metric_series lqm else pivot_lqm b.repr lqm)) _
              (λ quality. single-Yields b tool _ "metrics" _ end (apart refl refl refl refl)))))

  probe_report-Yields :
      (q : Question) (ids : SiteElement) (w : Window)
      → Yields (IsReply tool) (probe_report b cal truncate q ids w)
  unfolding probe_report has get
  probe_report-Yields q ids w =
      bind-Yields (IsReply tool) (execute b "compat.monitor_probe_point_metrics" end _) _ (λ probe.
        unless_failed-Yields b tool probe _ (
          bind-Yields (IsReply tool)
            (raising (if q.raw then metric_series probe else pivot_probe b.repr probe)) _
            (λ rows.
              listing-Yields b tool _ "probes" _ _ none false _ (apart refl refl refl refl))))

  metric_report-Yields :
      (report_of : Question → SiteElement → Window → Step Fields) (q : Question) (ids : SiteElement)
      → ((w : Window) → Yields (IsReply tool) (report_of q ids w))
      → Yields (IsReply tool) (metric_report b cal truncate report_of q ids)
  unfolding metric_report
  metric_report-Yields report_of q ids each =
      if_kept (Yields (IsReply tool)) (truthy ids.site_id) _ _
        (or_invalid-Yields _ (report_of q ids) each)
        (refused-Yields "invalid_argument" "site is required for metric operations" tool 400)

  dataset_items-Yields :
      (d : Dataset) (q : Question) (vs : List Value)
      → Yields (IsReply tool) (dataset_items b cal truncate d q vs)
  unfolding dataset_items has get
  dataset_items-Yields d q vs =
      listing-Yields b tool _ "items" _ end none false vs (apart refl refl refl refl)

  result-Yields :
      (summary : Text) (data_ : Value)
      → Yields (IsReply tool) (single b tool summary "result" data_ end)
  unfolding has get
  result-Yields summary data_ =
      single-Yields b tool summary "result" data_ end (apart refl refl refl refl)

  reply_dataset-Yields :
      (d : Dataset) (q : Question) (data_ : Value) (rs : List Fields)
      → Yields (IsReply tool) (reply_dataset b cal truncate d q data_ rs)
  unfolding reply_dataset
  reply_dataset-Yields d q data_ (r ∷ rs) = dataset_items-Yields d q (map dict (r ∷ rs))
  reply_dataset-Yields d q (list vs) [] = dataset_items-Yields d q (items vs)
  reply_dataset-Yields d q null [] = result-Yields _ null
  reply_dataset-Yields d q (bool x) [] = result-Yields _ (bool x)
  reply_dataset-Yields d q (int z) [] = result-Yields _ (int z)
  reply_dataset-Yields d q (real t) [] = result-Yields _ (real t)
  reply_dataset-Yields d q (str t) [] = result-Yields _ (str t)
  reply_dataset-Yields d q (dict fs) [] = result-Yields _ (dict fs)

  report-Yields :
      (operation : Monitoring) (q : Question) (ids : SiteElement)
      → Yields (IsReply tool) (report b cal truncate operation q ids)
  unfolding report
  report-Yields events q ids = event_log-Yields events q ids
  report-Yields alarms q ids = event_log-Yields alarms q ids
  report-Yields flows q ids = flow_report-Yields q ids
  report-Yields link_metrics q ids =
      metric_report-Yields (link_report b cal truncate) q ids (link_report-Yields q ids)
  report-Yields probe_metrics q ids =
      metric_report-Yields (probe_report b cal truncate) q ids (probe_report-Yields q ids)
  report-Yields (dataset d) q ids =
      bind-Yields (IsReply tool) (execute b (dataset_action d) end none) _ (λ data_.
        unless_failed-Yields b tool data_ _ (reply_dataset-Yields d q data_ (records data_)))

  pub get_monitoring-IsReply :
      (operation : Monitoring) (q : Question) (log : Log)
      → IsReply (codes "get_monitoring") (get_monitoring b cal truncate operation q log).0
  unfolding get_monitoring
  get_monitoring-IsReply operation q log =
      let run : Step Fields =
        ids_if_given b q.site q.element >>= λ ids. report b cal truncate operation q ids in
      let replies : Yields (IsReply tool) run =
        bind-Yields (IsReply tool) (ids_if_given b q.site q.element) _
          (λ ids. report-Yields operation q ids) in
      elim (Result-cases ((run log).0)) [
        | inl (e, f) ↦ rw (get_monitoring, f) (inr (handle_value_error-IsError b cal truncate e))
        | inr (reply, f) ↦ rw (get_monitoring, f) (replies.yielded log reply f)
      ]
