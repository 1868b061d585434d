-- ===== src/Tools/Core/Topology.antt =====
-- tools/core.py: `get_topology`.
pub mod Links
pub mod Sites
use prisma_sdwan_mcp.Tools.Core.Topology.Links.{elements_at, site_links, with_status, Leg, all_legs}
use prisma_sdwan_mcp.Prelude.{
  ltb, if◌then◌else◌, length, take, drop, keep, ℕ, ◌+◌, Bool, true, false, not, ◌&&◌, Option, none,
  some, List, [], ◌∷◌, ◌++◌, map,
}
use prisma_sdwan_mcp.Prelude.Text.{Text, codes, text_eq, lower}
use prisma_sdwan_mcp.Prelude.Int.{ℤ, below, to_nat}
use prisma_sdwan_mcp.Value.{
  Value, null, bool, str, list, dict, Fields, end, field, of_items, get, get_or_null, set, truthy,
  dicts,
}
use prisma_sdwan_mcp.Resolver.Records.{decimal}
use prisma_sdwan_mcp.Resolver.{given}
use prisma_sdwan_mcp.Common.{sort_counts}
use prisma_sdwan_mcp.Response.Envelope.{count}
use prisma_sdwan_mcp.Tools.{
  Log, Toolbox, Step, return, raising, ◌>>=◌, execute, id_of_named, try_tool, max_fanout, gather,
  first_truthy, counts_value, text_at,
}
use prisma_sdwan_mcp.Tools.Replies.{Paging, invalid_argument, quoted, listing, unless_failed}
use prisma_sdwan_mcp.Tools.Core.Inventory.{count_texts}

abbrev pub tool : Text
tool = codes "get_topology"

module _ (b : Toolbox) where
  leg_ids : Leg → Fields
  leg_ids leg =
      field "vpnlink_id" (str leg.leg_id)
        (field "path_id" leg.parent (field "anynet_link_id" leg.anynet_link_id end))

  leg_details : Leg → Fields → Fields
  unfolding get_or_null
  leg_details leg item = field "vpnlink_id" (str leg.leg_id) (
      field "path_id" leg.parent (
        field "anynet_link_id" leg.anynet_link_id (
          field "ep1_element_id" (get_or_null "ep1_element_id" item) (
            field "ep2_element_id" (get_or_null "ep2_element_id" item) (
              field "source_elem_if_id" (get_or_null "ep1_interface_id" item) (
                field "target_elem_if_id" (get_or_null "ep2_interface_id" item) (
                  field "active" (get_or_null "active" item) (
                    field "usable" (get_or_null "usable" item) (
                      field "link_up" (get_or_null "link_up" item)
                        (field "derived_from_anynet" (bool true) end))))))))))

  leg_entry : Leg → Value → Fields
  unfolding leg_ids leg_details set
  leg_entry leg (dict fs) = elim (get "error" fs) [
    | some error ↦ set "error" error (leg_ids leg)
    | none ↦ leg_details leg fs
  ]
  leg_entry leg state = leg_details leg end

  -- The live status of a leg.
  unfoldable pub leg_status : Leg → Step (List Fields)
  unfolding leg_entry
  leg_status leg = do
    state ← execute b "compat.vpnlinks_status" (field "vpnlink_id" (str leg.leg_id) end) none
    return (leg_entry leg state ∷ [])

-- The arguments of a call; `full` and `basenet_view` say what `detail` and `view` are.
pub record Query : Type 0 where
  pub full : Bool
  pub site : Option Text
  pub status : Option Text
  pub basenet_view : Bool
  pub leg_offset : ℤ

-- The legs that a call with an offset reads, at most as many as the ceiling.
unfoldable pub window : ℕ → ℕ → List Leg → List Leg
window cap leg_offset legs = take cap (drop leg_offset legs)

-- `next_leg_offset`
unfoldable pub next_offset_of : ℕ → ℕ → List Leg → Option ℕ
next_offset_of cap leg_offset legs =
    let behind = leg_offset + length (window cap leg_offset legs) in
    if ltb behind (length legs) then some behind else none

unfoldable pub or_null : Option ℕ → Value
or_null none = null
or_null (some n) = count n

module _ (b : Toolbox) where
  unfoldable pub basenet_reply :
      Option Text → Value → ℕ → ℕ → Paging → List Leg → List Fields → Step Fields
  unfolding or_null codes decimal quoted
  basenet_reply site site_id cap leg_offset paging legs entries =
      let batch = window cap leg_offset legs in
      let behind = leg_offset + length batch in
      listing b tool
        (codes "Derived basenet view for site "
          ++ (quoted (elim site [ none ↦ codes "None" | some s ↦ s ])
              ++ (codes " using "
                  ++ (decimal (length batch) ++ codes " VPN leg status lookup(s)"))))
        "links" paging
        (field "site_id" site_id (
          field "leg_total" (count (length legs)) (
            field "leg_offset" (count leg_offset) (
              field "leg_count" (count (length batch)) (
                field "leg_resolution_capped" (bool (ltb behind (length legs))) (
                  field "next_leg_offset" (or_null (next_offset_of cap leg_offset legs))
                    (field "view" (str (codes "basenet")) end)))))))
        none false (map dict entries)

  -- `view='basenet'`: the status of each leg of the window.
  unfoldable pub basenet : Option Text → Value → ℕ → Paging → List Value → Step Fields
  unfolding basenet_reply
  basenet site site_id leg_offset paging links = do
    legs ← raising (all_legs b.repr (dicts (of_items links)))
    cap ← max_fanout b
    entries ← gather (leg_status b) (window cap leg_offset legs)
    basenet_reply site site_id cap leg_offset paging legs entries

  unfoldable pub status_counts : List Value → Value
  unfolding codes
  status_counts links = dict (
      counts_value
        (sort_counts (count_texts b.repr "status" (codes "unknown") (dicts (of_items links)) [])))

  not_up_row : Fields → Fields
  unfolding codes
  not_up_row x = field "path_id" (first_truthy ("path_id" ∷ "id" ∷ []) x) (
      field "anynet_link_id" (get_or_null "anynet_link_id" x) (
        field "source"
          (first_truthy ("source_site_name" ∷ "source_site_id" ∷ "source_node_id" ∷ []) x)
          (field "target"
            (first_truthy ("target_site_name" ∷ "target_site_id" ∷ "target_node_id" ∷ []) x)
            (field "status" (elim (get "status" x) [ none ↦ str (codes "unknown") | some v ↦ v ])
              (field "vpnlinks" (get_or_null "vpnlinks" x) end)))))

  -- The links whose status is not "up".
  unfoldable pub not_up_links : List Value → List Fields
  unfolding not_up_row codes
  not_up_links links = map not_up_row (
      keep (λ x. not (text_eq (lower (text_at b.repr "status" [] x)) (codes "up")))
        (dicts (of_items links)))

  unfoldable pub summary_reply : Value → Paging → List Value → List Value → Step Fields
  unfolding status_counts codes decimal
  summary_reply site_id paging nodes links =
      listing b tool
        (codes "Topology summary: "
          ++ (decimal (length nodes)
              ++ (codes " node(s), " ++ (decimal (length links) ++ codes " link(s)"))))
        "not_up_links" paging
        (field "node_count" (count (length nodes)) (
          field "link_count" (count (length links))
            (field "status_counts" (status_counts links) (field "site_id" site_id end))))
        none false (map dict (not_up_links links))

  unfoldable pub full_reply : Value → Paging → List Value → List Value → Step Fields
  unfolding status_counts codes decimal
  full_reply site_id paging nodes links =
      listing b tool (codes "Filtered topology: " ++ (decimal (length links) ++ codes " link(s)"))
        "links" paging
        (field "nodes" (if truthy site_id then list (of_items nodes) else null)
          (field "status_counts" (status_counts links) (field "site_id" site_id end)))
        none false links

  -- The site's id, or None without a site.
  unfoldable pub site_id_of : Option Text → Step Value
  site_id_of site = elim (given site) [ none ↦ return null | some s ↦ id_of_named b "site" s ]

  unfoldable pub view_reply : Query → Paging → Value → List Value → List Value → Step Fields
  unfolding summary_reply full_reply
  view_reply q paging site_id nodes links =
      if q.basenet_view
      then basenet q.site site_id (to_nat q.leg_offset) paging links
      else if q.full
      then full_reply site_id paging nodes links
      else summary_reply site_id paging nodes links

  unfoldable pub topology_reply : Query → Paging → Value → Value → Step Fields
  unfolding view_reply
  topology_reply q paging site_id data_ =
      let nodes = elements_at "nodes" data_ in
      let links = elements_at "links" data_ in
      if q.basenet_view && not (truthy site_id)
      then return (invalid_argument "view='basenet' requires site" tool)
      else if below q.leg_offset 0
      then return (invalid_argument "leg_offset must be a non-negative integer" tool)
      else (do
        kept ← raising (
            with_status b.repr q.status
              (if truthy site_id then site_links b.repr site_id nodes links else links))
        view_reply q paging site_id nodes kept)

  unfoldable pub is_unfiltered : Query → Value → Bool
  is_unfiltered q site_id =
      q.full && not (truthy site_id) && elim (given q.status) [ none ↦ true | some s ↦ false ]

  unfoldable pub get_topology : Query → Paging → Log → Fields × Log
  unfolding site_id_of topology_reply is_unfiltered codes
  get_topology q paging = try_tool b tool (do
    site_id ← site_id_of q.site
    if is_unfiltered q site_id
        then return (invalid_argument "detail='full' requires site or status" tool)
        else (do
          data_ ← execute b "compat.topology" end (some (field "type" (str (codes "anynet")) end))
          unless_failed b tool data_ (topology_reply q paging site_id data_)))
