-- ===== src/Tools/Discovery/Catalog.antt =====
-- tools/discovery.py: `_browse_entry`, `list_capabilities` and `read_capability`.
use prisma_sdwan_mcp.Prelude.{
  ltb, if◌then◌else◌, length, is_empty, ℕ, ◌*◌, String, Bool, true, false, not, ◌&&◌, Option, none,
  some, List, ◌++◌, map,
}
use prisma_sdwan_mcp.Prelude.Text.{Text, codes, strip}
use prisma_sdwan_mcp.Prelude.Result.{err, ok}
use prisma_sdwan_mcp.Errors.{registry, of_catalog}
use prisma_sdwan_mcp.Config.{get_max_page_size, expert_tool_enabled, allow_unverified_compat}
use prisma_sdwan_mcp.Value.{
  Value, null, bool, str, list, dict, Fields, end, field, items, of_items, truthy,
}
use prisma_sdwan_mcp.Value.Names.{name_of}
use prisma_sdwan_mcp.Resolver.Records.{records, decimal}
use prisma_sdwan_mcp.Resolver.{given}
use prisma_sdwan_mcp.Response.{structured_error}
use prisma_sdwan_mcp.Response.Envelope.{count}
use prisma_sdwan_mcp.Response.Collection.{setting}
use prisma_sdwan_mcp.Catalog.{
  ActionSpec, required_path_parameters, get_action, list_actions, registry_action_count,
  compat_action_count,
}
use prisma_sdwan_mcp.Catalog.Describe.{
  Registry, source_text, described, describe, DomainCount, domains_of, expert_blocked,
}
use prisma_sdwan_mcp.Tools.{Log, Toolbox, Step, return, raising, ◌>>=◌, execute, try_tool}
use prisma_sdwan_mcp.Tools.Replies.{
  Paging, refusal, invalid_argument, quoted, listing, single, unless_failed,
}

abbrev pub listing_budget : ℕ
listing_budget = 256 * 1024

-- `_browse_entry`, of the description of an action.
unfoldable pub browse_entry : ActionSpec → Fields
unfolding truthy
browse_entry a =
    let live = if a.requires_live_test then field "requires_live_test" (bool true) end else end in
    let body = if truthy a.body_schema then field "takes_body" (bool true) live else live in
    let required = required_path_parameters a in
    field "action_id" (str a.action_id) (
      field "http_method" (str a.http_method) (
        field "description" a.description (
          if is_empty required
          then body
          else field "required_path_parameters" (list (of_items (map str required))) body)))

abbrev pub list_tool : Text
list_tool = codes "list_capabilities"

unfoldable pub domain_entry : DomainCount → Fields
unfolding codes
domain_entry d = field "domain" (str d.info.domain) (
    field "title" d.info.title (
      field "description" d.info.description (
        field "action_count" (count d.action_total) (
          field "next_call"
            (str (codes "list_capabilities(domain=\"" ++ (d.info.domain ++ codes "\")"))) end))))

unfoldable pub detail_note : Bool → Value
unfolding codes
detail_note true = null
detail_note false = str (
    codes
      "body_schema, output_fields and the rest of the execution contract are omitted while browsing - get one action in full with list_capabilities(action_id=\"...\"), or the whole domain with detail=\"full\"")

module _ (b : Toolbox) (r : Registry) where
  unfoldable pub catalog_page : Text → String → Fields → Bool → List Fields → Step Fields
  unfolding get_max_page_size setting
  catalog_page summary key extra full entries = do
    most ← raising (setting (get_max_page_size b.env))
    listing b list_tool summary key (record { cursor = none; limit = count most }) extra
        (some listing_budget) full (map dict entries)

  unfoldable pub list_domains : Step Fields
  unfolding catalog_page domain_entry codes decimal
  list_domains =
      catalog_page (decimal (length (domains_of r)) ++ codes " domain(s) in the capability catalog")
        "domains"
        (field "registry_actions" (count (registry_action_count r.actions))
          (field "compat_actions" (count (compat_action_count r.actions)) end))
        false (map domain_entry (domains_of r))

  unfoldable pub contract : Text → Step Fields
  unfolding structured_error codes strip
  contract action_id = elim (describe r.actions (strip action_id)) [
    | err m ↦ return (
        structured_error (codes "invalid_argument") (b.text (registry m)) list_tool (count 400)
          (field "action_id" (str action_id) end))
    | ok action ↦
        single b list_tool (codes "Full execution contract for " ++ action_id) "capability"
          (dict action) end
  ]

  unfoldable pub unknown_domain_reply : Text → Fields
  unfolding structured_error codes quoted
  unknown_domain_reply domain =
      structured_error (codes "invalid_argument") (codes "unknown domain " ++ quoted domain)
        list_tool (count 400)
        (field "valid_domains" (list (of_items (map (λ d. str d.info.domain) (domains_of r)))) end)

  unfoldable pub domain_actions : Text → Option Text → Bool → Step Fields
  unfolding unknown_domain_reply catalog_page detail_note codes decimal quoted
  domain_actions domain method full =
      elim (list_actions (map (λ d. d.domain) r.domains) r.actions domain method) [
        | err m ↦ return (unknown_domain_reply domain)
        | ok matches ↦
            catalog_page
              (decimal (length matches) ++ (codes " action(s) in domain " ++ quoted domain))
              "capabilities"
              (field "domain" (str domain) (
                field "action_count" (count (length matches))
                  (field "detail_note" (detail_note full) end)))
              true (map (if full then described else browse_entry) matches)
      ]

  unfoldable pub list_reply : Option Text → Option Text → Option Text → Bool → Step Fields
  unfolding list_domains contract domain_actions given
  list_reply domain method action_id full = elim (given action_id) [
    | some id ↦ contract id
    | none ↦ elim domain [ none ↦ list_domains | some d ↦ domain_actions d method full ]
  ]

  unfoldable pub list_capabilities :
      Option Text → Option Text → Option Text → Bool → Log → Fields × Log
  unfolding list_reply
  list_capabilities domain method action_id full =
      try_tool b list_tool (list_reply domain method action_id full)

  unfoldable pub read_tool : Text
  unfolding codes
  read_tool = codes "read_capability"

  unfoldable pub executed_extra : Text → ActionSpec → Fields
  executed_extra action_id action =
      field "action_id" (str action_id)
        (field "source" (str (source_text action)) (field "api_version" action.api_version end))

  -- Several records, or a list, are paged; anything else is one result.
  unfoldable pub executed_reply : Text → ActionSpec → Paging → Bool → Value → Step Fields
  unfolding executed_extra read_tool codes
  executed_reply action_id action paging full value =
      let paged : List Value → Step Fields = λ vs.
        listing b read_tool (codes "Executed " ++ action_id) "items" paging
          (executed_extra action_id action) none full vs in
      let whole : Step Fields =
        single b read_tool (codes "Executed " ++ action_id) "result" value
          (executed_extra action_id action) in
      let rs = records value in
      elim value [
        | list vs ↦ paged (if is_empty rs then items vs else map dict rs)
        | _ ↦ if ltb 1 (length rs) then paged (map dict rs) else whole
      ]

  unfoldable pub blocked_reply : Text → Fields
  unfolding structured_error read_tool codes
  blocked_reply action_id =
      structured_error (codes "requires_live_test")
        (codes
          "this curated capability is blocked from generic execution until live validation is completed")
        read_tool (count 403) (field "action_id" (str action_id) end)

  -- The call of an action of the catalog that is not blocked.
  unfoldable pub run_action :
      Text → ActionSpec → Fields → Option Fields → Paging → Bool → Step Fields
  unfolding executed_reply read_tool
  run_action action_id action paths body paging full = do
    value ← execute b (name_of action_id) paths body
    unless_failed b read_tool value (executed_reply action_id action paging full value)

  unfoldable pub checked_action :
      Text → Fields → Option Fields → Paging → Bool → ActionSpec → Step Fields
  unfolding run_action blocked_reply
  checked_action action_id paths body paging full action =
      if expert_blocked r action_id && not (allow_unverified_compat b.env)
      then return (blocked_reply action_id)
      else run_action action_id action paths body paging full

  unfoldable pub read_reply : Text → Fields → Option Fields → Paging → Bool → Step Fields
  unfolding checked_action read_tool strip
  read_reply action_id paths body paging full =
      if is_empty (strip action_id)
      then return (invalid_argument "action_id is required" read_tool)
      else (do
        action ← raising (of_catalog (get_action r.actions (strip action_id)))
        checked_action (strip action_id) paths body paging full action)

  unfoldable pub read_capability :
      Text → Fields → Option Fields → Paging → Bool → Log → Fields × Log
  unfolding read_reply read_tool codes
  read_capability action_id paths body paging full log =
      if expert_tool_enabled b.env
      then try_tool b read_tool (read_reply action_id paths body paging full) log
      else (
        refusal "expert_tool_disabled" "generic registry execution is disabled by configuration"
            read_tool 403,
        log,
      )
