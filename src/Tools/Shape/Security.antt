-- ===== src/Tools/Shape/Security.antt =====
-- tools/policies_security.py: the reply of `get_security`.
use prisma_sdwan_mcp.Prelude.{
  Option-cases, String, refl, inl, inr, false, Option, none, some, List, [], ◌∷◌, map,
}
use prisma_sdwan_mcp.Prelude.Text.{Text, codes, strip}
use prisma_sdwan_mcp.Value.{
  Value, null, bool, int, real, str, list, dict, Fields, end, field, items, get, has,
}
use prisma_sdwan_mcp.Resolver.Records.{records}
use prisma_sdwan_mcp.Resolver.{given}
use prisma_sdwan_mcp.Response.Shape.{IsReply}
use prisma_sdwan_mcp.Tools.{Log, Toolbox, Step, execute, ids_of}
use prisma_sdwan_mcp.Tools.Replies.{Paging, single}
use prisma_sdwan_mcp.Tools.Shape.{
  apart, Yields, return-Yields, bind-Yields, chain-Yields, try_tool-IsReply, listing-Yields,
  single-Yields, unless_failed-Yields,
}
use prisma_sdwan_mcp.Tools.Domains.{Answer, refused, answered}
use prisma_sdwan_mcp.Tools.Policies.Security.{
  tool, Security, zones, site_zones, element_zones, applications, application_version,
  global_prefixes, local_prefixes, sdwan_apps, sdwan_app_status, sdwan_app_configs, items_reply,
  records_reply, answer_reply, applications_reply, version_reply, sdwan_app, site_zones_of,
  element_zones_of, answer_then, security_reply, get_security,
}
use prisma_sdwan_mcp.Tools.Shape.Domains.{
  IsRefusal, Refuses, invalid-Refuses, read_with-Refuses, at_site_id-Refuses, at_ids-Refuses,
}

module _ (b : Toolbox) where
  items_reply-Yields :
      (operation : Security) (paging : Paging) (vs : List Value)
      → Yields (IsReply tool) (items_reply b operation paging vs)
  unfolding items_reply has get
  items_reply-Yields operation paging vs =
      listing-Yields b tool _ "items" paging end none false vs (apart refl refl refl refl)

  result-Yields :
      (summary : Text) (data_ : Value)
      → Yields (IsReply tool) (single b tool summary "result" data_ end)
  unfolding has get
  result-Yields summary data_ =
      single-Yields b tool summary "result" data_ end (apart refl refl refl refl)

  records_reply-Yields :
      (operation : Security) (paging : Paging) (data_ : Value) (rs : List Fields)
      → Yields (IsReply tool) (records_reply b operation paging data_ rs)
  unfolding records_reply
  records_reply-Yields operation paging data_ (r ∷ rs) =
      items_reply-Yields operation paging (map dict (r ∷ rs))
  records_reply-Yields operation paging (list vs) [] =
      items_reply-Yields operation paging (items vs)
  records_reply-Yields operation paging null [] = result-Yields _ null
  records_reply-Yields operation paging (bool x) [] = result-Yields _ (bool x)
  records_reply-Yields operation paging (int z) [] = result-Yields _ (int z)
  records_reply-Yields operation paging (real t) [] = result-Yields _ (real t)
  records_reply-Yields operation paging (str t) [] = result-Yields _ (str t)
  records_reply-Yields operation paging (dict fs) [] = result-Yields _ (dict fs)

  answer_reply-Yields :
      (operation : Security) (paging : Paging) (answer : Answer)
      → IsRefusal tool answer
      → Yields (IsReply tool) (answer_reply b operation paging answer)
  unfolding answer_reply
  answer_reply-Yields operation paging (refused reply) e =
      return-Yields (IsReply tool) reply (inr e)
  answer_reply-Yields operation paging (answered data_) e =
      unless_failed-Yields b tool data_ _
        (records_reply-Yields operation paging data_ (records data_))

  answer_then-Yields :
      (operation : Security) (paging : Paging) (m : Step Answer)
      → Refuses tool m
      → Yields (IsReply tool) (answer_then b operation paging m)
  unfolding answer_then
  answer_then-Yields operation paging m refuses =
      chain-Yields (IsRefusal tool) (IsReply tool) m _ refuses
        (λ answer e. answer_reply-Yields operation paging answer e)

  applications_reply-Yields :
      (application : Option Text) (paging : Paging)
      → Yields (IsReply tool) (applications_reply b application paging)
  unfolding applications_reply has get
  applications_reply-Yields application paging =
      bind-Yields (IsReply tool) (execute b "security_policies.appdefs" end none) _ (λ data_.
        listing-Yields b tool _ "applications" paging _ none false _ (apart refl refl refl refl))

  version_reply-Yields : Yields (IsReply tool) (version_reply b)
  unfolding version_reply has get
  version_reply-Yields =
      bind-Yields (IsReply tool) (execute b "security_policies.appdefs_version" end none) _
        (λ data_.
          unless_failed-Yields b tool data_ _
            (single-Yields b tool _ "version" data_ end (apart refl refl refl refl)))

  sdwan_app-Refuses :
      (action : String) (application : Option Text) → Refuses tool (sdwan_app b action application)
  unfolding sdwan_app
  sdwan_app-Refuses action application =
      elim (Option-cases (
        given (elim (given application) as (λ x. Option Text) [
          | none ↦ none
          | some s ↦ some (strip s)
        ]))) [
          | inl e ↦ rw (sdwan_app, e) (invalid-Refuses b tool _)
          | inr (id, e) ↦
              rw (sdwan_app, e)
                (read_with-Refuses b tool action (field "sdwanapp_id" (str id) end) none)
        ]

  security_reply-Yields :
      (operation : Security) (site element application : Option Text) (paging : Paging)
      → Yields (IsReply tool) (security_reply b operation site element application paging)
  unfolding security_reply site_zones_of element_zones_of
  security_reply-Yields applications site element application paging =
      applications_reply-Yields application paging
  security_reply-Yields application_version site element application paging = version_reply-Yields
  security_reply-Yields zones site element application paging =
      answer_then-Yields zones paging _ (read_with-Refuses b tool _ end none)
  security_reply-Yields global_prefixes site element application paging =
      answer_then-Yields global_prefixes paging _ (read_with-Refuses b tool _ end none)
  security_reply-Yields local_prefixes site element application paging =
      answer_then-Yields local_prefixes paging _ (read_with-Refuses b tool _ end none)
  security_reply-Yields sdwan_apps site element application paging =
      answer_then-Yields sdwan_apps paging _ (read_with-Refuses b tool _ end none)
  security_reply-Yields sdwan_app_status site element application paging =
      answer_then-Yields sdwan_app_status paging _
        (sdwan_app-Refuses "security_policies.sdwanapps_status" application)
  security_reply-Yields sdwan_app_configs site element application paging =
      answer_then-Yields sdwan_app_configs paging _
        (sdwan_app-Refuses "security_policies.sdwanapps_configs" application)
  security_reply-Yields site_zones site element application paging =
      answer_then-Yields site_zones paging _ (
        bind-Yields (IsRefusal tool) (ids_of b site element) _
          (λ ids. at_site_id-Refuses b tool ids _ _))
  security_reply-Yields element_zones site element application paging =
      answer_then-Yields element_zones paging _ (
        bind-Yields (IsRefusal tool) (ids_of b site element) _
          (λ ids. at_ids-Refuses b tool ids _ _))

  pub get_security-IsReply :
      (operation : Security) (site element application : Option Text) (paging : Paging) (log : Log)
      → IsReply
          (codes "get_security")
          (get_security b operation site element application paging log).0
  unfolding get_security
  get_security-IsReply operation site element application paging log =
      try_tool-IsReply b tool _ (security_reply-Yields operation site element application paging)
        log
