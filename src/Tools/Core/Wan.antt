-- ===== src/Tools/Core/Wan.antt =====
-- tools/core.py: `get_wan`.
use prisma_sdwan_mcp.Prelude.{
  if◌then◌else◌, length, String, false, Option, none, some, List, [], ◌∷◌, ◌++◌, map,
}
use prisma_sdwan_mcp.Prelude.Text.{Text, codes, strip}
use prisma_sdwan_mcp.Value.{Value, str, dict, Fields, end, field, truthy}
use prisma_sdwan_mcp.Resolver.Records.{records, project, decimal}
use prisma_sdwan_mcp.Resolver.{given}
use prisma_sdwan_mcp.Tools.{Log, Toolbox, Step, return, ◌>>=◌, execute, ids_of, try_tool}
use prisma_sdwan_mcp.Tools.Replies.{
  Paging, invalid_argument, quoted, listing, single, unless_failed,
}
use prisma_sdwan_mcp.Tools.Domains.{site_paths}

abbrev pub tool : Text
tool = codes "get_wan"

-- `WanOperation`
pub data Wan : Type 0 where
  interfaces networks paths vpn_links vpn_leg_status : Wan
  vpn_leg_state vrfs lan_networks ipsec_profiles : Wan

unfoldable pub wan_name : Wan → String
wan_name interfaces = "interfaces"
wan_name networks = "networks"
wan_name paths = "paths"
wan_name vpn_links = "vpn_links"
wan_name vpn_leg_status = "vpn_leg_status"
wan_name vpn_leg_state = "vpn_leg_state"
wan_name vrfs = "vrfs"
wan_name lan_networks = "lan_networks"
wan_name ipsec_profiles = "ipsec_profiles"

abbrev pub wan_fields : List String
wan_fields =
    "id" ∷ "name" ∷ "description" ∷ "network_id" ∷ "type" ∷ "cost" ∷ "bfd_mode" ∷ "bwc_enabled"
    ∷ "bw_config_mode" ∷ "lqm_enabled" ∷ "link_bw_up" ∷ "link_bw_down" ∷ "label_id" ∷ "element_id"
    ∷ "site_id" ∷ []

module _ (b : Toolbox) where
  -- The reply with the items that are made of the data's records.
  unfoldable pub wan_items : Wan → Paging → (List Fields → List Fields) → Value → Step Fields
  unfolding codes decimal quoted
  wan_items operation paging shape data_ =
      let items_ = shape (records data_) in
      unless_failed b tool data_ (
        listing b tool
          (codes "WAN operation "
            ++ (quoted (codes (wan_name operation))
                ++ (codes " returned " ++ (decimal (length items_) ++ codes " item(s)"))))
          "items" paging (field "operation" (str (codes (wan_name operation))) end) none false
          (map dict items_))

  unfoldable pub read_items :
      Wan → Paging → String → Fields → Option Fields → (List Fields → List Fields) → Step Fields
  unfolding wan_items
  read_items operation paging action paths_ body shape = do
    data_ ← execute b action paths_ body
    wan_items operation paging shape data_

  -- The status or the state of one leg.
  unfoldable pub vpn_leg : Wan → String → Option Text → Step Fields
  unfolding given strip codes quoted
  vpn_leg operation action object_id =
      elim (given (elim (given object_id) [ none ↦ none | some s ↦ some (strip s) ])) [
        | none ↦ return (invalid_argument "object_id (vpnlink leg ID) is required" tool)
        | some leg ↦ do
          data_ ← execute b action (field "vpnlink_id" (str leg) end) none
          unless_failed b tool data_ (
              single b tool
                (codes (wan_name operation)
                  ++ (codes " for " ++ quoted (elim object_id [ none ↦ [] | some s ↦ s ])))
                (wan_name operation) data_ end)
      ]

  -- An operation of a site.
  unfoldable pub at_given_site :
      Wan → Option Text → Option Text → Paging → String → (List Fields → List Fields) → Step Fields
  unfolding read_items truthy
  at_given_site operation site element paging action shape = do
    ids ← ids_of b site element
    if truthy ids.site_id
        then read_items operation paging action (site_paths ids) none shape
        else return (invalid_argument "site is required for this operation" tool)

  -- The VPN links of the tenant; a site and an element are resolved but not used.
  unfoldable pub all_vpn_links : Option Text → Option Text → Paging → Step Fields
  unfolding read_items
  all_vpn_links site element paging = do
    ids ← ids_of b site element
    read_items vpn_links paging "vpn_wan.vpnlinks_query" end (some end) (λ rs. rs)

  unfoldable pub wan_reply : Wan → Option Text → Option Text → Option Text → Paging → Step Fields
  unfolding read_items vpn_leg at_given_site all_vpn_links project
  wan_reply networks site element object_id paging =
      read_items networks paging "vpn_wan.wannetworks" end none
        (map (project ("id" ∷ "name" ∷ "description" ∷ "type" ∷ [])))
  wan_reply vrfs site element object_id paging =
      read_items vrfs paging "vpn_wan.vrfcontexts" end none (λ rs. rs)
  wan_reply ipsec_profiles site element object_id paging =
      read_items ipsec_profiles paging "vpn_wan.ipsecprofiles" end none (λ rs. rs)
  wan_reply vpn_leg_status site element object_id paging =
      vpn_leg vpn_leg_status "compat.vpnlinks_status" object_id
  wan_reply vpn_leg_state site element object_id paging =
      vpn_leg vpn_leg_state "compat.vpnlinks_state" object_id
  wan_reply interfaces site element object_id paging =
      at_given_site interfaces site element paging "vpn_wan.waninterfaces"
        (map (project wan_fields))
  wan_reply paths site element object_id paging =
      at_given_site paths site element paging "vpn_wan.wanpaths" (λ rs. rs)
  wan_reply lan_networks site element object_id paging =
      at_given_site lan_networks site element paging "vpn_wan.lannetworks" (λ rs. rs)
  wan_reply vpn_links site element object_id paging = all_vpn_links site element paging

  unfoldable pub get_wan :
      Wan → Option Text → Option Text → Option Text → Paging → Log → Fields × Log
  unfolding wan_reply
  get_wan operation site element object_id paging =
      try_tool b tool (wan_reply operation site element object_id paging)
