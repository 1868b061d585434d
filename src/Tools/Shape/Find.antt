-- ===== src/Tools/Shape/Find.antt =====
-- tools/discovery.py: the replies of the three tools that find a record, and of `resolve_path`.
use prisma_sdwan_mcp.Prelude.{
  if_kept, is_empty, String, refl, Bool, false, Option, none, some, List,
}
use prisma_sdwan_mcp.Prelude.Text.{Text, codes, strip}
use prisma_sdwan_mcp.Value.{Value, str, Fields, end, field, get, has}
use prisma_sdwan_mcp.Resolver.Records.{to_text}
use prisma_sdwan_mcp.Resolver.{ambiguous}
use prisma_sdwan_mcp.Response.Shape.{IsReply, IsApart}
use prisma_sdwan_mcp.Tools.{Log, Toolbox, ◌>>=◌, execute, id_of_named}
use prisma_sdwan_mcp.Tools.Replies.{Paging}
use prisma_sdwan_mcp.Tools.Shape.{
  apart, Yields, bind-Yields, refused-Yields, try_tool-IsReply, listing-Yields,
}
use prisma_sdwan_mcp.Tools.Policies.{tool, families}
use prisma_sdwan_mcp.Tools.Discovery.Find.{
  ResourceKind, machine, application, security_zone, wan_network, path_group, service_label, vrf,
  family_policy, any_policy, resource_kind_name, found_by, matches_reply, match_extra,
  find_one_kind, find_site, find_element, find_policies, resource_reply, resource_matches,
  find_resource,
}
use prisma_sdwan_mcp.Tools.Discovery.Path.{path_reply, look_up, resolve_path}

module _ (b : Toolbox) where
  matches_reply-Yields :
      (tool : Text) (key what : String) (name : Text) (paging : Paging) (extra : Fields)
      (matches : List Fields)
      → IsApart key extra
      → Yields (IsReply tool) (matches_reply b tool key what name paging extra matches)
  unfolding matches_reply
  matches_reply-Yields tool key what name paging extra matches is_apart =
      listing-Yields b tool _ key paging extra none false _ is_apart

  find_one_kind-IsReply :
      (tool key kind : String) (name : Text) (paging : Paging)
      → ((c : Bool) (matches : List Fields) → IsApart key (match_extra b c matches))
      → (log : Log) → IsReply (codes tool) (find_one_kind b tool key kind name paging log).0
  unfolding find_one_kind
  find_one_kind-IsReply tool key kind name paging is_apart log =
      try_tool-IsReply b (codes tool) _
        (bind-Yields (IsReply (codes tool)) (found_by b kind name) _ (λ result.
          matches_reply-Yields (codes tool) key kind name paging _ result.matches
            (is_apart (ambiguous result) result.matches)))
        log

  pub find_site-IsReply :
      (name : Text) (paging : Paging) (log : Log)
      → IsReply (codes "find_site") (find_site b name paging log).0
  unfolding find_site match_extra has get
  find_site-IsReply name paging log =
      find_one_kind-IsReply "find_site" "sites" "site" name paging
        (λ c matches. apart refl refl refl refl) log

  pub find_element-IsReply :
      (name : Text) (paging : Paging) (log : Log)
      → IsReply (codes "find_element") (find_element b name paging log).0
  unfolding find_element match_extra has get
  find_element-IsReply name paging log =
      find_one_kind-IsReply "find_element" "elements" "element" name paging
        (λ c matches. apart refl refl refl refl) log

  resource_reply-Yields :
      (kind : ResourceKind) (name : Text) (paging : Paging) (c : Bool) (matches : List Fields)
      → Yields (IsReply (codes "find_resource")) (resource_reply b kind name paging c matches)
  unfolding resource_reply match_extra has get
  resource_reply-Yields kind name paging c matches =
      matches_reply-Yields (codes "find_resource") "matches" (resource_kind_name kind) name paging _
        matches (apart refl refl refl refl)

  one_kind-Yields :
      (kind : ResourceKind) (name : Text) (paging : Paging)
      → Yields (IsReply (codes "find_resource")) (
          found_by b (resource_kind_name kind) name >>= λ result.
          resource_reply b kind name paging (ambiguous result) result.matches)
  one_kind-Yields kind name paging =
      bind-Yields (IsReply (codes "find_resource")) (found_by b (resource_kind_name kind) name) _
        (λ result. resource_reply-Yields kind name paging (ambiguous result) result.matches)

  resource_matches-Yields :
      (kind : ResourceKind) (name : Text) (paging : Paging)
      → Yields (IsReply (codes "find_resource")) (resource_matches b kind name paging)
  unfolding resource_matches
  resource_matches-Yields any_policy name paging =
      bind-Yields (IsReply (codes "find_resource")) (find_policies b families name) _
        (λ matches. resource_reply-Yields any_policy name paging _ matches)
  resource_matches-Yields machine name paging = one_kind-Yields machine name paging
  resource_matches-Yields application name paging = one_kind-Yields application name paging
  resource_matches-Yields security_zone name paging = one_kind-Yields security_zone name paging
  resource_matches-Yields wan_network name paging = one_kind-Yields wan_network name paging
  resource_matches-Yields path_group name paging = one_kind-Yields path_group name paging
  resource_matches-Yields service_label name paging = one_kind-Yields service_label name paging
  resource_matches-Yields vrf name paging = one_kind-Yields vrf name paging
  resource_matches-Yields (family_policy f) name paging =
      one_kind-Yields (family_policy f) name paging

  pub find_resource-IsReply :
      (kind : ResourceKind) (name : Text) (paging : Paging) (log : Log)
      → IsReply (codes "find_resource") (find_resource b kind name paging log).0
  unfolding find_resource
  find_resource-IsReply kind name paging log =
      try_tool-IsReply b (codes "find_resource") _ (resource_matches-Yields kind name paging) log

  path_reply-Yields :
      (path_id : Text) (site_id : Value) (located : Option Fields)
      → Yields (IsReply (codes "resolve_path")) (path_reply b path_id site_id located)
  unfolding path_reply has get
  path_reply-Yields path_id site_id none =
      listing-Yields b (codes "resolve_path") _ "paths" _ (field "site_id" site_id end) none false _
        (apart refl refl refl refl)
  path_reply-Yields path_id site_id (some f) =
      listing-Yields b (codes "resolve_path") _ "paths" _ (field "site_id" site_id end) none false _
        (apart refl refl refl refl)

  look_up-Yields :
      (path_id : Text) (site_id : Value)
      → Yields (IsReply (codes "resolve_path")) (look_up b path_id site_id)
  unfolding look_up
  look_up-Yields path_id site_id =
      bind-Yields (IsReply (codes "resolve_path"))
        (execute b "vpn_wan.waninterfaces" (field "site_id" site_id end) none) _
        (λ wan.
          bind-Yields (IsReply (codes "resolve_path")) (execute b "compat.topology" end _) _
            (λ topology.
              bind-Yields (IsReply (codes "resolve_path")) _ _
                (λ located. path_reply-Yields path_id site_id located)))

  pub resolve_path-IsReply :
      (site path_id : Text) (log : Log)
      → IsReply (codes "resolve_path") (resolve_path b site path_id log).0
  unfolding resolve_path
  resolve_path-IsReply site path_id log =
      try_tool-IsReply b (codes "resolve_path") _
        (bind-Yields (IsReply (codes "resolve_path")) (id_of_named b "site" site) _ (λ site_id.
          if_kept (Yields (IsReply (codes "resolve_path"))) (is_empty (strip path_id)) _ _
            (refused-Yields "invalid_argument" "path_id is required" (codes "resolve_path") 400)
            (look_up-Yields (strip path_id) (str (to_text b.repr site_id)))))
        log
