-- ===== src/Tools/Shape/Core/Wan.antt =====
-- tools/core.py: the reply of `get_wan`.
use prisma_sdwan_mcp.Prelude.{
  Option-cases, if_kept, String, refl, inl, inr, false, Option, none, some, List, [], ◌∷◌, map,
}
use prisma_sdwan_mcp.Prelude.Text.{Text, codes, strip}
use prisma_sdwan_mcp.Value.{Value, str, Fields, end, field, get, has, truthy}
use prisma_sdwan_mcp.Resolver.Records.{project}
use prisma_sdwan_mcp.Resolver.{given}
use prisma_sdwan_mcp.Response.Shape.{IsReply, IsApart}
use prisma_sdwan_mcp.Tools.{Log, Toolbox, execute, ids_of}
use prisma_sdwan_mcp.Tools.Replies.{Paging}
use prisma_sdwan_mcp.Tools.Shape.{
  apart, Yields, bind-Yields, refused-Yields, try_tool-IsReply, listing-Yields, single-Yields,
  unless_failed-Yields,
}
use prisma_sdwan_mcp.Tools.Domains.{site_paths}
use prisma_sdwan_mcp.Tools.Core.Wan.{
  tool, Wan, interfaces, networks, paths, vpn_links, vpn_leg_status, vpn_leg_state, vrfs,
  lan_networks, ipsec_profiles, wan_name, wan_fields, wan_items, read_items, vpn_leg, at_given_site,
  all_vpn_links, wan_reply, get_wan,
}

module _ (b : Toolbox) where
  wan_items-Yields :
      (operation : Wan) (paging : Paging) (shape : List Fields → List Fields) (data_ : Value)
      → Yields (IsReply tool) (wan_items b operation paging shape data_)
  unfolding wan_items has get
  wan_items-Yields operation paging shape data_ =
      unless_failed-Yields b tool data_ _
        (listing-Yields b tool _ "items" paging _ none false _ (apart refl refl refl refl))

  read_items-Yields :
      (operation : Wan) (paging : Paging) (action : String) (paths_ : Fields) (body : Option Fields)
      (shape : List Fields → List Fields)
      → Yields (IsReply tool) (read_items b operation paging action paths_ body shape)
  unfolding read_items
  read_items-Yields operation paging action paths_ body shape =
      bind-Yields (IsReply tool) (execute b action paths_ body) _
        (λ data_. wan_items-Yields operation paging shape data_)

  at_given_site-Yields :
      (operation : Wan) (site element : Option Text) (paging : Paging) (action : String)
      (shape : List Fields → List Fields)
      → Yields (IsReply tool) (at_given_site b operation site element paging action shape)
  unfolding at_given_site
  at_given_site-Yields operation site element paging action shape =
      bind-Yields (IsReply tool) (ids_of b site element) _ (λ ids.
        if_kept (Yields (IsReply tool)) (truthy ids.site_id) _ _
          (read_items-Yields operation paging action (site_paths ids) none shape)
          (refused-Yields "invalid_argument" "site is required for this operation" tool 400))

  -- A leg's reply stands under the operation's name.
  vpn_leg-Yields :
      (operation : Wan) (action : String) (object_id : Option Text)
      → IsApart (wan_name operation) end
      → Yields (IsReply tool) (vpn_leg b operation action object_id)
  unfolding vpn_leg
  vpn_leg-Yields operation action object_id is_apart =
      elim (Option-cases (
        given (elim (given object_id) as (λ x. Option Text) [
          | none ↦ none
          | some s ↦ some (strip s)
        ]))) [
          | inl e ↦
              rw (vpn_leg, e)
                (refused-Yields "invalid_argument" "object_id (vpnlink leg ID) is required" tool
                  400)
          | inr (leg, e) ↦
              rw (vpn_leg, e)
                (bind-Yields (IsReply tool)
                  (execute b action (field "vpnlink_id" (str leg) end) none) _
                  (λ data_.
                    unless_failed-Yields b tool data_ _
                      (single-Yields b tool _ (wan_name operation) data_ end is_apart)))
        ]

  wan_reply-Yields :
      (operation : Wan) (site element object_id : Option Text) (paging : Paging)
      → Yields (IsReply tool) (wan_reply b operation site element object_id paging)
  unfolding wan_reply all_vpn_links wan_name has get
  wan_reply-Yields networks site element object_id paging =
      read_items-Yields networks paging "vpn_wan.wannetworks" end none
        (map (project ("id" ∷ "name" ∷ "description" ∷ "type" ∷ [])))
  wan_reply-Yields vrfs site element object_id paging =
      read_items-Yields vrfs paging "vpn_wan.vrfcontexts" end none (λ rs. rs)
  wan_reply-Yields ipsec_profiles site element object_id paging =
      read_items-Yields ipsec_profiles paging "vpn_wan.ipsecprofiles" end none (λ rs. rs)
  wan_reply-Yields vpn_leg_status site element object_id paging =
      vpn_leg-Yields vpn_leg_status "compat.vpnlinks_status" object_id (apart refl refl refl refl)
  wan_reply-Yields vpn_leg_state site element object_id paging =
      vpn_leg-Yields vpn_leg_state "compat.vpnlinks_state" object_id (apart refl refl refl refl)
  wan_reply-Yields interfaces site element object_id paging =
      at_given_site-Yields interfaces site element paging "vpn_wan.waninterfaces"
        (map (project wan_fields))
  wan_reply-Yields paths site element object_id paging =
      at_given_site-Yields paths site element paging "vpn_wan.wanpaths" (λ rs. rs)
  wan_reply-Yields lan_networks site element object_id paging =
      at_given_site-Yields lan_networks site element paging "vpn_wan.lannetworks" (λ rs. rs)
  wan_reply-Yields vpn_links site element object_id paging =
      bind-Yields (IsReply tool) (ids_of b site element) _ (λ ids.
        read_items-Yields vpn_links paging "vpn_wan.vpnlinks_query" end (some end) (λ rs. rs))

  pub get_wan-IsReply :
      (operation : Wan) (site element object_id : Option Text) (paging : Paging) (log : Log)
      → IsReply (codes "get_wan") (get_wan b operation site element object_id paging log).0
  unfolding get_wan
  get_wan-IsReply operation site element object_id paging log =
      try_tool-IsReply b tool _ (wan_reply-Yields operation site element object_id paging) log
