-- ===== src/Tools/Shape/Capabilities.antt =====
-- tools/discovery.py: the replies of `list_capabilities` and `read_capability`.
use prisma_sdwan_mcp.Prelude.{
  ltb, if◌then◌else◌, Option-cases, if_kept, length, is_empty, String, refl, inl, inr, Bool, true,
  false, not, ◌&&◌, Option, none, some, List, ◌++◌, map,
}
use prisma_sdwan_mcp.Prelude.Text.{Text, codes, strip}
use prisma_sdwan_mcp.Prelude.Result.{Result-cases}
use prisma_sdwan_mcp.Errors.{registry}
use prisma_sdwan_mcp.Value.{
  Value, null, bool, int, real, str, list, dict, Fields, end, field, of_items, get, has,
}
use prisma_sdwan_mcp.Resolver.Records.{records}
use prisma_sdwan_mcp.Resolver.{given}
use prisma_sdwan_mcp.Response.Envelope.{count}
use prisma_sdwan_mcp.Response.Shape.{IsError, IsReply, structured_error-IsError, IsApart}
use prisma_sdwan_mcp.Tools.{Log, Toolbox, raising, execute}
use prisma_sdwan_mcp.Tools.Replies.{Paging, quoted, listing, single}
use prisma_sdwan_mcp.Tools.Shape.{
  refusal-IsError, apart, Yields, return-Yields, bind-Yields, refused-Yields, try_tool-IsReply,
  listing-Yields, single-Yields, unless_failed-Yields,
}
use prisma_sdwan_mcp.Config.{get_max_page_size, expert_tool_enabled, allow_unverified_compat}
use prisma_sdwan_mcp.Catalog.{ActionSpec, list_actions}
use prisma_sdwan_mcp.Catalog.Describe.{Registry, describe, domains_of, expert_blocked}
use prisma_sdwan_mcp.Response.Collection.{setting}
use prisma_sdwan_mcp.Value.Names.{name_of}
use prisma_sdwan_mcp.Tools.Discovery.Catalog.{
  list_tool, catalog_page, list_domains, contract, unknown_domain_reply, domain_actions, list_reply,
  list_capabilities, read_tool, executed_extra, executed_reply, blocked_reply, run_action,
  checked_action, read_reply, read_capability,
}

module _ (b : Toolbox) (r : Registry) where
  catalog_page-Yields :
      (summary : Text) (key : String) (extra : Fields) (full : Bool) (entries : List Fields)
      → IsApart key extra
      → Yields (IsReply list_tool) (catalog_page b r summary key extra full entries)
  unfolding catalog_page
  catalog_page-Yields summary key extra full entries is_apart =
      bind-Yields (IsReply list_tool) (raising (setting (get_max_page_size b.env))) _
        (λ most. listing-Yields b list_tool summary key _ extra _ full _ is_apart)

  contract-Yields : (action_id : Text) → Yields (IsReply list_tool) (contract b r action_id)
  unfolding contract has get
  contract-Yields action_id = elim (Result-cases (describe r.actions (strip action_id))) [
    | inl (m, e) ↦
        rw (contract, e)
          (return-Yields (IsReply list_tool) _ (
            inr (
              structured_error-IsError (codes "invalid_argument") (b.text (registry m)) list_tool
                (count 400) (field "action_id" (str action_id) end))))
    | inr (action, e) ↦
        rw (contract, e)
          (single-Yields b list_tool _ "capability" (dict action) end (apart refl refl refl refl))
  ]

  unknown_domain-IsError : (domain : Text) → IsError list_tool (unknown_domain_reply b r domain)
  unfolding unknown_domain_reply
  unknown_domain-IsError domain =
      structured_error-IsError (codes "invalid_argument") (codes "unknown domain " ++ quoted domain)
        list_tool (count 400)
        (field "valid_domains" (list (of_items (map (λ d. str d.info.domain) (domains_of r)))) end)

  domain_actions-Yields :
      (domain : Text) (method : Option Text) (full : Bool)
      → Yields (IsReply list_tool) (domain_actions b r domain method full)
  unfolding domain_actions has get
  domain_actions-Yields domain method full =
      elim (Result-cases (list_actions (map (λ d. d.domain) r.domains) r.actions domain method)) [
        | inl (m, e) ↦
            rw (domain_actions, e)
              (return-Yields (IsReply list_tool) _ (inr (unknown_domain-IsError domain)))
        | inr (matches, e) ↦
            rw (domain_actions, e)
              (catalog_page-Yields _ "capabilities" _ true _ (apart refl refl refl refl))
      ]

  list_domains-Yields : Yields (IsReply list_tool) (list_domains b r)
  unfolding list_domains has get
  list_domains-Yields = catalog_page-Yields _ "domains" _ false _ (apart refl refl refl refl)

  no_action-Yields :
      (domain method : Option Text) (full : Bool)
      → Yields
          (IsReply list_tool)
          (elim domain [ none ↦ list_domains b r | some d ↦ domain_actions b r d method full ])
  no_action-Yields none method full = list_domains-Yields
  no_action-Yields (some d) method full = domain_actions-Yields d method full

  pub list_capabilities-IsReply :
      (domain method action_id : Option Text) (full : Bool) (log : Log)
      → IsReply
          (codes "list_capabilities")
          (list_capabilities b r domain method action_id full log).0
  unfolding list_capabilities list_reply
  list_capabilities-IsReply domain method action_id full log =
      try_tool-IsReply b list_tool _
        (elim (Option-cases (given action_id)) [
          | inl e ↦ rw (list_reply, e) (no_action-Yields domain method full)
          | inr (id, e) ↦ rw (list_reply, e) (contract-Yields id)
        ])
        log

  paged-Yields :
      (action_id : Text) (action : ActionSpec) (paging : Paging) (full : Bool) (vs : List Value)
      → Yields (IsReply (codes "read_capability")) (
          listing b
            (codes "read_capability")
            (codes "Executed " ++ action_id)
            "items"
            paging
            (executed_extra b r action_id action)
            none
            full
            vs)
  unfolding executed_extra has get
  paged-Yields action_id action paging full vs =
      listing-Yields b (codes "read_capability") _ "items" paging _ none full vs
        (apart refl refl refl refl)

  whole-Yields :
      (action_id : Text) (action : ActionSpec) (value : Value)
      → Yields (IsReply (codes "read_capability")) (
          single b
            (codes "read_capability")
            (codes "Executed " ++ action_id)
            "result"
            value
            (executed_extra b r action_id action))
  unfolding executed_extra has get
  whole-Yields action_id action value =
      single-Yields b (codes "read_capability") _ "result" value _ (apart refl refl refl refl)

  either-Yields :
      (action_id : Text) (action : ActionSpec) (paging : Paging) (full : Bool) (value : Value)
      → Yields (IsReply (codes "read_capability")) (
          if ltb 1 (length (records value))
          then listing b
              (codes "read_capability")
              (codes "Executed " ++ action_id)
              "items"
              paging
              (executed_extra b r action_id action)
              none
              full
              (map dict (records value))
          else single b
              (codes "read_capability")
              (codes "Executed " ++ action_id)
              "result"
              value
              (executed_extra b r action_id action))
  either-Yields action_id action paging full value =
      if_kept (Yields (IsReply (codes "read_capability"))) (ltb 1 (length (records value))) _ _
        (paged-Yields action_id action paging full (map dict (records value)))
        (whole-Yields action_id action value)

  executed_reply-Yields :
      (action_id : Text) (action : ActionSpec) (paging : Paging) (full : Bool) (value : Value)
      → Yields
          (IsReply (codes "read_capability"))
          (executed_reply b r action_id action paging full value)
  unfolding executed_reply read_tool
  executed_reply-Yields action_id action paging full (list vs) =
      paged-Yields action_id action paging full _
  executed_reply-Yields action_id action paging full null =
      either-Yields action_id action paging full null
  executed_reply-Yields action_id action paging full (bool x) =
      either-Yields action_id action paging full (bool x)
  executed_reply-Yields action_id action paging full (int z) =
      either-Yields action_id action paging full (int z)
  executed_reply-Yields action_id action paging full (real t) =
      either-Yields action_id action paging full (real t)
  executed_reply-Yields action_id action paging full (str t) =
      either-Yields action_id action paging full (str t)
  executed_reply-Yields action_id action paging full (dict fs) =
      either-Yields action_id action paging full (dict fs)

  blocked-IsError :
      (action_id : Text) → IsError (codes "read_capability") (blocked_reply b r action_id)
  unfolding blocked_reply read_tool
  blocked-IsError action_id =
      structured_error-IsError (codes "requires_live_test")
        (codes
          "this curated capability is blocked from generic execution until live validation is completed")
        (codes "read_capability") (count 403) (field "action_id" (str action_id) end)

  checked_action-Yields :
      (action_id : Text) (paths : Fields) (body : Option Fields) (paging : Paging) (full : Bool)
      (action : ActionSpec)
      → Yields
          (IsReply (codes "read_capability"))
          (checked_action b r action_id paths body paging full action)
  unfolding checked_action run_action read_tool
  checked_action-Yields action_id paths body paging full action =
      if_kept (Yields (IsReply (codes "read_capability")))
        (expert_blocked r action_id && not (allow_unverified_compat b.env)) _ _
        (return-Yields (IsReply (codes "read_capability")) _ (inr (blocked-IsError action_id)))
        (bind-Yields (IsReply (codes "read_capability")) (execute b (name_of action_id) paths body)
          _
          (λ value.
            unless_failed-Yields b (codes "read_capability") value _
              (executed_reply-Yields action_id action paging full value)))

  read_reply-Yields :
      (action_id : Text) (paths : Fields) (body : Option Fields) (paging : Paging) (full : Bool)
      → Yields (IsReply (codes "read_capability")) (read_reply b r action_id paths body paging full)
  unfolding read_reply read_tool
  read_reply-Yields action_id paths body paging full =
      if_kept (Yields (IsReply (codes "read_capability"))) (is_empty (strip action_id)) _ _
        (refused-Yields "invalid_argument" "action_id is required" (codes "read_capability") 400)
        (bind-Yields (IsReply (codes "read_capability")) _ _
          (λ action. checked_action-Yields (strip action_id) paths body paging full action))

  pub read_capability-IsReply :
      (action_id : Text) (paths : Fields) (body : Option Fields) (paging : Paging) (full : Bool)
      (log : Log)
      → IsReply
          (codes "read_capability")
          (read_capability b r action_id paths body paging full log).0
  unfolding read_capability read_tool
  read_capability-IsReply action_id paths body paging full log =
      if_kept (λ (x : Fields × Log). IsReply (codes "read_capability") x.0)
        (expert_tool_enabled b.env) _ _
        (try_tool-IsReply b (codes "read_capability") _
          (read_reply-Yields action_id paths body paging full) log)
        (inr (
          refusal-IsError "expert_tool_disabled"
            "generic registry execution is disabled by configuration" (codes "read_capability")
            403))
