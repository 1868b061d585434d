-- ===== src/Tools/Shape/Policies.antt =====
-- tools/policies_security.py: the reply of `get_policies`.
use prisma_sdwan_mcp.Prelude.{
  Option-cases, if_kept, is_empty, String, refl, inl, inr, false, Option, none, some, [], ◌++◌,
}
use prisma_sdwan_mcp.Prelude.Text.{Text, codes, strip}
use prisma_sdwan_mcp.Value.{Value, Fields, end, field, get, get_or_null, has, truthy}
use prisma_sdwan_mcp.Resolver.{given}
use prisma_sdwan_mcp.Response.Envelope.{count}
use prisma_sdwan_mcp.Response.Shape.{IsError, IsReply, structured_error-IsError}
use prisma_sdwan_mcp.Tools.{Log, Toolbox, return, ◌>>=◌, execute, resolve}
use prisma_sdwan_mcp.Tools.Replies.{Paging}
use prisma_sdwan_mcp.Tools.Shape.{
  apart, Yields, return-Yields, bind-Yields, refused-Yields, try_tool-IsReply, listing-Yields,
  single-Yields, unless_failed-Yields,
}
use prisma_sdwan_mcp.Tools.Policies.{
  tool, Family, families, family_name, resolver_kind, Collection, Detail, rules, status, Operation,
  collection, policy_detail, detail_name, collection_action, detail_action, id_param, scan_families,
  all_reply, all_policies, family_items, reply_detail, read_detail, no_detail, policy_reply,
  family_reply, get_policies,
}

module _ (b : Toolbox) where
  all_policies-Yields :
      (operation : Operation) (paging : Paging)
      → Yields (IsReply tool) (all_policies b operation paging)
  unfolding all_policies all_reply has get
  all_policies-Yields (policy_detail d) paging =
      refused-Yields "invalid_argument" "family='all' supports only sets or stacks" tool 400
  all_policies-Yields (collection c) paging =
      bind-Yields (IsReply tool)
        (scan_families b c families (record { combined = []; family_errors = end })) _
        (λ scan. listing-Yields b tool _ "items" paging _ none false _ (apart refl refl refl refl))

  family_items-Yields :
      (f : Family) (operation : Collection) (paging : Paging)
      → Yields (IsReply tool) (family_items b f operation paging)
  unfolding family_items has get
  family_items-Yields f operation paging =
      bind-Yields (IsReply tool) (execute b (collection_action f operation) end none) _ (λ data_.
        unless_failed-Yields b tool data_ _
          (listing-Yields b tool _ "items" paging _ none false _ (apart refl refl refl refl)))

  reply_detail-Yields :
      (f : Family) (d : Detail) (policy : Text) (record_ : Fields) (paging : Paging) (data_ : Value)
      → Yields (IsReply tool) (reply_detail b f d policy record_ paging data_)
  unfolding reply_detail has get
  reply_detail-Yields f status policy record_ paging data_ =
      single-Yields b tool _ "status" data_ _ (apart refl refl refl refl)
  reply_detail-Yields f rules policy record_ paging data_ =
      listing-Yields b tool _ "rules" paging _ none false _ (apart refl refl refl refl)

  read_detail-Yields :
      (f : Family) (d : Detail) (action : String) (policy : Text) (paging : Paging)
      (record_ : Fields)
      → Yields (IsReply tool) (read_detail b f d action policy paging record_)
  unfolding read_detail
  read_detail-Yields f d action policy paging record_ =
      if_kept (Yields (IsReply tool)) (truthy (get_or_null "id" record_)) _ _
        (bind-Yields (IsReply tool)
          (execute b action (field (id_param f) (get_or_null "id" record_) end) none) _
          (λ data_.
            unless_failed-Yields b tool data_ _
              (reply_detail-Yields f d policy record_ paging data_)))
        (refused-Yields "unresolved_relationship" "resolved policy has no id" tool 409)

  no_detail-IsError : (f : Family) (d : Detail) → IsError tool (no_detail b f d)
  unfolding no_detail
  no_detail-IsError f d =
      structured_error-IsError (codes "unsupported_operation")
        (codes (detail_name d)
          ++ (codes " is not available for "
              ++ (codes (family_name f) ++ codes " policies in the registry")))
        tool (count 400) end

  known_policy-Yields :
      (f : Family) (d : Detail) (name : Text) (paging : Paging) (action : Option String)
      → Yields (IsReply tool) (elim action [
        | none ↦ return (no_detail b f d)
        | some action_id ↦ resolve b (resolver_kind f) name >>= λ record_.
            read_detail b f d action_id name paging record_
      ])
  known_policy-Yields f d name paging none =
      return-Yields (IsReply tool) _ (inr (no_detail-IsError f d))
  known_policy-Yields f d name paging (some action) =
      bind-Yields (IsReply tool) (resolve b (resolver_kind f) name) _
        (λ record_. read_detail-Yields f d action name paging record_)

  policy_reply-Yields :
      (f : Family) (d : Detail) (policy : Option Text) (paging : Paging)
      → Yields (IsReply tool) (policy_reply b f d policy paging)
  unfolding policy_reply
  policy_reply-Yields f d policy paging = elim (Option-cases (given policy)) [
    | inl e ↦
        rw (policy_reply, e)
          (refused-Yields "invalid_argument" "policy name or ID is required for rules/status" tool
            400)
    | inr (name, e) ↦
        rw (policy_reply, e)
          (if_kept (Yields (IsReply tool)) (is_empty (strip name)) _ _
            (refused-Yields "invalid_argument" "policy name or ID is required for rules/status" tool
              400)
            (known_policy-Yields f d name paging (detail_action f d)))
  ]

  family_reply-Yields :
      (f : Family) (operation : Operation) (policy : Option Text) (paging : Paging)
      → Yields (IsReply tool) (family_reply b f operation policy paging)
  unfolding family_reply
  family_reply-Yields f (collection c) policy paging = family_items-Yields f c paging
  family_reply-Yields f (policy_detail d) policy paging = policy_reply-Yields f d policy paging

  pub get_policies-IsReply :
      (family : Option Family) (operation : Operation) (policy : Option Text) (paging : Paging)
      (log : Log)
      → IsReply (codes "get_policies") (get_policies b family operation policy paging log).0
  unfolding get_policies
  get_policies-IsReply none operation policy paging log =
      try_tool-IsReply b tool _ (all_policies-Yields operation paging) log
  get_policies-IsReply (some f) operation policy paging log =
      try_tool-IsReply b tool _ (family_reply-Yields f operation policy paging) log
