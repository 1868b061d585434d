-- ===== src/Tools/Routing/Get.antt =====
-- tools/routing_diagnostics.py: `get_routing`.
use prisma_sdwan_mcp.Prelude.{
  if◌then◌else◌, length, take, is_empty, String, Bool, false, ◌&&◌, Option, none, some, List, [],
  ◌∷◌, ◌++◌, map,
}
use prisma_sdwan_mcp.Prelude.Text.{Text, codes, strip}
use prisma_sdwan_mcp.Prelude.Int.{ℤ}
use prisma_sdwan_mcp.Value.{Value, str, list, dict, Fields, end, field, of_items, get, truthy}
use prisma_sdwan_mcp.Resolver.Records.{records, project, decimal}
use prisma_sdwan_mcp.Resolver.{found, given, SiteElement}
use prisma_sdwan_mcp.Common.{merge_fields, match_named}
use prisma_sdwan_mcp.Response.{structured_error}
use prisma_sdwan_mcp.Response.Envelope.{count}
use prisma_sdwan_mcp.Tools.{
  Log, Toolbox, Step, return, ◌>>=◌, execute, ids_of, try_tool, max_fanout, gather, first_truthy,
}
use prisma_sdwan_mcp.Tools.Replies.{
  Paging, refusal, invalid_argument, quoted, listing, single, unless_failed,
}
use prisma_sdwan_mcp.Tools.Domains.{id_paths}
use prisma_sdwan_mcp.Tools.Routing.Bgp.{tool, bgp_status}

-- `RoutingOperation`: the operations that are one read are one constructor.
pub data Table : Type 0 where
  bgp_peers bgp_config ospf_config static_routes : Table
  route_maps prefix_lists community_lists aspath_lists : Table

pub data Routing : Type 0 where
  table : Table → Routing
  bgp_state bgp_prefixes ospf_neighbors ospf_prefixes : Routing

pub data PrefixKind : Type 0 where
  reachable advertised discovered : PrefixKind

unfoldable pub table_name : Table → String
table_name bgp_peers = "bgp_peers"
table_name bgp_config = "bgp_config"
table_name ospf_config = "ospf_config"
table_name static_routes = "static_routes"
table_name route_maps = "route_maps"
table_name prefix_lists = "prefix_lists"
table_name community_lists = "community_lists"
table_name aspath_lists = "aspath_lists"

unfoldable pub table_action : Table → String
table_action bgp_peers = "routing_bgp_ospf.bgppeers"
table_action bgp_config = "routing_bgp_ospf.bgpconfigs"
table_action ospf_config = "routing_bgp_ospf.ospfconfigs"
table_action static_routes = "routing_bgp_ospf.staticroutes"
table_action route_maps = "routing_bgp_ospf.routing_routemaps"
table_action prefix_lists = "routing_bgp_ospf.routing_prefixlists"
table_action community_lists = "routing_bgp_ospf.routing_ipcommunitylists"
table_action aspath_lists = "routing_bgp_ospf.routing_aspathaccesslists"

unfoldable pub prefix_kind_name : PrefixKind → String
prefix_kind_name reachable = "reachable"
prefix_kind_name advertised = "advertised"
prefix_kind_name discovered = "discovered"

unfoldable pub prefix_action : PrefixKind → String
prefix_action reachable = "routing_bgp_ospf.bgppeers_reachableprefixes"
prefix_action advertised = "routing_bgp_ospf.bgppeers_advertisedprefixes"
prefix_action discovered = "routing_bgp_ospf.bgppeers_discoveredprefixes"

abbrev pub peer_fields : List String
peer_fields = "id" ∷ "name" ∷ "peer_ip" ∷ "peer_ip_address" ∷ []

module _ (b : Toolbox) (truncate : Text → ℤ) where
  unfoldable pub items_reply : String → SiteElement → Paging → List Fields → Step Fields
  unfolding codes decimal quoted
  items_reply name ids paging items_ =
      listing b tool
        (codes "Routing operation "
          ++ (quoted (codes name)
              ++ (codes " returned " ++ (decimal (length items_) ++ codes " item(s)"))))
        "items" paging (field "operation" (str (codes name)) (id_paths ids)) none false
        (map dict items_)

  -- The items of the data; an error of the controller is the reply only if there are none.
  unfoldable pub table_reply : Table → SiteElement → Paging → Value → List Fields → Step Fields
  unfolding items_reply
  table_reply t ids paging data_ [] =
      unless_failed b tool data_ (items_reply (table_name t) ids paging [])
  table_reply t ids paging data_ (r ∷ rs) = items_reply (table_name t) ids paging (r ∷ rs)

  unfoldable pub no_peer : Text → Fields
  unfolding structured_error codes quoted
  no_peer peer =
      structured_error (codes "not_found") (codes "no BGP peer matches " ++ quoted peer) tool
        (count 404) end

  unfoldable pub many_peers : Text → List Fields → Fields
  unfolding structured_error codes decimal quoted project
  many_peers peer matches =
      structured_error (codes "ambiguous_match")
        (decimal (length matches) ++ (codes " BGP peers match " ++ quoted peer)) tool (count 409)
        (field "candidates" (list (of_items (map (λ x. dict (project peer_fields x)) matches))) end)

  unfoldable pub prefixes_of : SiteElement → PrefixKind → Text → Fields → Step Fields
  unfolding truthy project codes quoted
  prefixes_of ids kind peer found =
      let peer_id = first_truthy ("id" ∷ "bgppeer_id" ∷ []) found in
      if truthy peer_id
      then (do
        data_ ←
            execute b (prefix_action kind)
              (field "site_id" ids.site_id
                (field "element_id" ids.element_id (field "bgppeer_id" peer_id end)))
              none
        unless_failed b tool data_ (
            single b tool
              (codes "BGP "
                ++ (codes (prefix_kind_name kind) ++ (codes " prefixes for peer " ++ quoted peer)))
              "prefixes" data_ (field "peer" (dict (project peer_fields found)) end)))
      else return (refusal "unresolved_relationship" "matched BGP peer has no ID" tool 409)

  -- The prefixes of the only match.
  unfoldable pub prefixes_among : SiteElement → PrefixKind → Text → List Fields → Step Fields
  unfolding no_peer many_peers prefixes_of
  prefixes_among ids kind peer [] = return (no_peer peer)
  prefixes_among ids kind peer (m ∷ []) = prefixes_of ids kind peer m
  prefixes_among ids kind peer (m ∷ m' ∷ ms) = return (many_peers peer (m ∷ m' ∷ ms))

  unfoldable pub peer_prefixes : SiteElement → PrefixKind → Option Text → Step Fields
  unfolding prefixes_among given strip match_named
  peer_prefixes ids kind peer = elim (given peer) [
    | none ↦ return (invalid_argument "peer is required for bgp_prefixes" tool)
    | some name ↦
        if is_empty (strip name)
        then return (invalid_argument "peer is required for bgp_prefixes" tool)
        else (do
          data_ ← execute b "routing_bgp_ospf.bgppeers" (id_paths ids) none
          prefixes_among ids kind name (
              match_named b.repr ("name" ∷ "peer_ip" ∷ "peer_ip_address" ∷ "ip_address" ∷ []) name
                (records data_)))
  ]

  -- The rows of one OSPF configuration, or its error.
  ospf_rows : Value → Value → List Fields
  unfolding get merge_fields records
  ospf_rows config_id result =
      let rows = map (merge_fields (field "ospfconfig_id" config_id end)) (records result) in
      elim result [
        | dict fs ↦ elim (get "error" fs) [
          | some error ↦ field "ospfconfig_id" config_id (field "error" error end) ∷ []
          | none ↦ rows
        ]
        | _ ↦ rows
      ]

  unfoldable pub read_ospf : String → SiteElement → Fields → Step (List Fields)
  unfolding ospf_rows truthy
  read_ospf action ids config =
      let config_id = first_truthy ("id" ∷ "ospfconfig_id" ∷ []) config in
      if truthy config_id
      then (do
        result ←
            execute b action
              (field "site_id" ids.site_id
                (field "element_id" ids.element_id (field "ospfconfig_id" config_id end)))
              none
        return (ospf_rows config_id result))
      else return []

  unfoldable pub ospf_reply : String → String → SiteElement → Paging → Step Fields
  unfolding items_reply
  ospf_reply name action ids paging = do
    data_ ← execute b "routing_bgp_ospf.ospfconfigs" (id_paths ids) none
    most ← max_fanout b
    rows ← gather (read_ospf action ids) (take most (records data_))
    items_reply name ids paging rows

  -- The further arguments of a call.
  unfoldable pub routing_reply :
      Routing → SiteElement → Option Text → PrefixKind → Bool → Paging → Step Fields
  unfolding table_reply peer_prefixes ospf_reply
  routing_reply (table t) ids peer kind include_prefixes paging = do
    data_ ← execute b (table_action t) (id_paths ids) none
    table_reply t ids paging data_ (records data_)
  routing_reply bgp_state ids peer kind include_prefixes paging =
      bgp_status b truncate ids include_prefixes paging
  routing_reply bgp_prefixes ids peer kind include_prefixes paging = peer_prefixes ids kind peer
  routing_reply ospf_neighbors ids peer kind include_prefixes paging =
      ospf_reply "ospf_neighbors" "routing_bgp_ospf.ospfconfigs_ospfdiscoveredneighbors" ids paging
  routing_reply ospf_prefixes ids peer kind include_prefixes paging =
      ospf_reply "ospf_prefixes" "routing_bgp_ospf.ospfconfigs_ospfreachableprefixes" ids paging

  unfoldable pub get_routing :
      Routing → Text → Option Text → Option Text → PrefixKind → Bool → Paging → Log → Fields × Log
  unfolding routing_reply truthy
  get_routing operation element site peer kind include_prefixes paging = try_tool b tool (do
    ids ← ids_of b site (some element)
    if truthy ids.site_id && truthy ids.element_id
        then routing_reply operation ids peer kind include_prefixes paging
        else return (invalid_argument "site and element must resolve to IDs" tool))
