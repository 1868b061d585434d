-- ===== src/Tools/Shape/Routing.antt =====
-- tools/routing_diagnostics.py: the reply of `get_routing`.
use prisma_sdwan_mcp.Prelude.{
  ltb, Option-cases, if_kept, length, take, drop, keep, is_empty, ℕ, String, refl, inl, inr, Bool,
  false, ◌&&◌, Option, none, some, List, [], ◌∷◌, ◌++◌, map,
}
use prisma_sdwan_mcp.Prelude.Int.{ℤ}
use prisma_sdwan_mcp.Prelude.Text.{Text, codes, strip}
use prisma_sdwan_mcp.Value.{
  Value, bool, list, dict, Fields, end, field, of_items, get, has, set, truthy,
}
use prisma_sdwan_mcp.Resolver.Records.{records, project, decimal}
use prisma_sdwan_mcp.Resolver.{given, SiteElement}
use prisma_sdwan_mcp.Response.Envelope.{count}
use prisma_sdwan_mcp.Response.Shape.{IsError, IsReply, structured_error-IsError, IsApart}
use prisma_sdwan_mcp.Tools.{Log, Toolbox, execute, ids_of, max_fanout, gather, first_truthy}
use prisma_sdwan_mcp.Tools.Replies.{Paging, quoted}
use prisma_sdwan_mcp.Tools.Shape.{
  apart, Yields, return-Yields, bind-Yields, refused-Yields, try_tool-IsReply, listing-Yields,
  single-Yields, unless_failed-Yields,
}
use prisma_sdwan_mcp.Tools.Domains.{id_paths}
use prisma_sdwan_mcp.Tools.Routing.Bgp.{
  tool, is_established, mark_established, add_prefixes, is_zero_peer, status_extra, status_reply,
  prefixed_reply, bgp_status,
}
use prisma_sdwan_mcp.Tools.Routing.Get.{
  Table, Routing, table, bgp_state, bgp_prefixes, ospf_neighbors, ospf_prefixes, PrefixKind,
  table_name, table_action, prefix_action, peer_fields, items_reply, table_reply, no_peer,
  many_peers, prefixes_of, prefixes_among, peer_prefixes, read_ospf, ospf_reply, routing_reply,
  get_routing,
}

module _ (b : Toolbox) (truncate : Text → ℤ) where
  status_reply-Yields :
      (ids : SiteElement) (paging : Paging) (established : ℕ) (more : Fields) (items_ : List Fields)
      → ((others : ℕ) → IsApart "items" (status_extra b truncate ids established others more))
      → Yields (IsReply tool) (status_reply b truncate ids paging established more items_)
  unfolding status_reply
  status_reply-Yields ids paging established more items_ is_apart =
      listing-Yields b tool _ "items" paging _ none false _ (is_apart _)

  prefixed_reply-Yields :
      (ids : SiteElement) (paging : Paging) (established : ℕ) (items_ : List Fields)
      → Yields (IsReply tool) (prefixed_reply b truncate ids paging established items_)
  unfolding prefixed_reply status_extra has get set
  prefixed_reply-Yields ids paging established items_ =
      bind-Yields (IsReply tool) (max_fanout b) _ (λ most.
        bind-Yields (IsReply tool) (gather (add_prefixes b truncate ids) (take most items_)) _
          (λ checked.
            status_reply-Yields ids paging established
              (field "zero_prefix_peers" (count (length (keep (is_zero_peer b truncate) checked)))
                (field "prefix_fanout_capped" (bool (ltb most (length items_))) end))
              (checked ++ drop most items_) (λ others. apart refl refl refl refl)))

  bgp_status-Yields :
      (ids : SiteElement) (include_prefixes : Bool) (paging : Paging)
      → Yields (IsReply tool) (bgp_status b truncate ids include_prefixes paging)
  unfolding bgp_status status_extra has get set
  bgp_status-Yields ids include_prefixes paging =
      bind-Yields (IsReply tool) (execute b "routing_bgp_ospf.bgppeers_status" (id_paths ids) none)
        _
        (λ data_.
          let items_ = map (mark_established b.repr) (records data_) in
          let established = length (keep (is_established b.repr) (records data_)) in
          if_kept (Yields (IsReply tool)) include_prefixes _ _
            (prefixed_reply-Yields ids paging established items_)
            (status_reply-Yields ids paging established end items_
              (λ others. apart refl refl refl refl)))

  items_reply-Yields :
      (name : String) (ids : SiteElement) (paging : Paging) (items_ : List Fields)
      → Yields (IsReply tool) (items_reply b truncate name ids paging items_)
  unfolding items_reply has get
  items_reply-Yields name ids paging items_ =
      listing-Yields b tool _ "items" paging _ none false _ (apart refl refl refl refl)

  table_reply-Yields :
      (t : Table) (ids : SiteElement) (paging : Paging) (data_ : Value) (rs : List Fields)
      → Yields (IsReply tool) (table_reply b truncate t ids paging data_ rs)
  unfolding table_reply
  table_reply-Yields t ids paging data_ [] =
      unless_failed-Yields b tool data_ _ (items_reply-Yields (table_name t) ids paging [])
  table_reply-Yields t ids paging data_ (r ∷ rs) =
      items_reply-Yields (table_name t) ids paging (r ∷ rs)

  no_peer-IsError : (peer : Text) → IsError tool (no_peer b truncate peer)
  unfolding no_peer
  no_peer-IsError peer =
      structured_error-IsError (codes "not_found") (codes "no BGP peer matches " ++ quoted peer)
        tool (count 404) end

  many_peers-IsError :
      (peer : Text) (matches : List Fields) → IsError tool (many_peers b truncate peer matches)
  unfolding many_peers
  many_peers-IsError peer matches =
      structured_error-IsError (codes "ambiguous_match")
        (decimal (length matches) ++ (codes " BGP peers match " ++ quoted peer)) tool (count 409)
        (field "candidates" (list (of_items (map (λ x. dict (project peer_fields x)) matches))) end)

  prefixes_of-Yields :
      (ids : SiteElement) (kind : PrefixKind) (peer : Text) (m : Fields)
      → Yields (IsReply tool) (prefixes_of b truncate ids kind peer m)
  unfolding prefixes_of has get
  prefixes_of-Yields ids kind peer m =
      if_kept (Yields (IsReply tool)) (truthy (first_truthy ("id" ∷ "bgppeer_id" ∷ []) m)) _ _
        (bind-Yields (IsReply tool) (execute b (prefix_action kind) _ none) _ (λ data_.
          unless_failed-Yields b tool data_ _
            (single-Yields b tool _ "prefixes" data_ _ (apart refl refl refl refl))))
        (refused-Yields "unresolved_relationship" "matched BGP peer has no ID" tool 409)

  prefixes_among-Yields :
      (ids : SiteElement) (kind : PrefixKind) (peer : Text) (matches : List Fields)
      → Yields (IsReply tool) (prefixes_among b truncate ids kind peer matches)
  unfolding prefixes_among
  prefixes_among-Yields ids kind peer [] =
      return-Yields (IsReply tool) _ (inr (no_peer-IsError peer))
  prefixes_among-Yields ids kind peer (m ∷ []) = prefixes_of-Yields ids kind peer m
  prefixes_among-Yields ids kind peer (m ∷ m' ∷ ms) =
      return-Yields (IsReply tool) _ (inr (many_peers-IsError peer (m ∷ m' ∷ ms)))

  peer_prefixes-Yields :
      (ids : SiteElement) (kind : PrefixKind) (peer : Option Text)
      → Yields (IsReply tool) (peer_prefixes b truncate ids kind peer)
  unfolding peer_prefixes
  peer_prefixes-Yields ids kind peer = elim (Option-cases (given peer)) [
    | inl e ↦
        rw (peer_prefixes, e)
          (refused-Yields "invalid_argument" "peer is required for bgp_prefixes" tool 400)
    | inr (name, e) ↦
        rw (peer_prefixes, e)
          (if_kept (Yields (IsReply tool)) (is_empty (strip name)) _ _
            (refused-Yields "invalid_argument" "peer is required for bgp_prefixes" tool 400)
            (bind-Yields (IsReply tool) (execute b "routing_bgp_ospf.bgppeers" (id_paths ids) none)
              _ (λ data_. prefixes_among-Yields ids kind name _)))
  ]

  ospf_reply-Yields :
      (name action : String) (ids : SiteElement) (paging : Paging)
      → Yields (IsReply tool) (ospf_reply b truncate name action ids paging)
  unfolding ospf_reply
  ospf_reply-Yields name action ids paging =
      bind-Yields (IsReply tool) (execute b "routing_bgp_ospf.ospfconfigs" (id_paths ids) none) _
        (λ data_. bind-Yields (IsReply tool) (max_fanout b) _ (λ most.
          bind-Yields (IsReply tool) (gather (read_ospf b truncate action ids) _) _
            (λ rows. items_reply-Yields name ids paging rows)))

  routing_reply-Yields :
      (operation : Routing) (ids : SiteElement) (peer : Option Text) (kind : PrefixKind)
      (include_prefixes : Bool) (paging : Paging)
      → Yields
          (IsReply tool)
          (routing_reply b truncate operation ids peer kind include_prefixes paging)
  unfolding routing_reply
  routing_reply-Yields (table t) ids peer kind include_prefixes paging =
      bind-Yields (IsReply tool) (execute b (table_action t) (id_paths ids) none) _
        (λ data_. table_reply-Yields t ids paging data_ (records data_))
  routing_reply-Yields bgp_state ids peer kind include_prefixes paging =
      bgp_status-Yields ids include_prefixes paging
  routing_reply-Yields bgp_prefixes ids peer kind include_prefixes paging =
      peer_prefixes-Yields ids kind peer
  routing_reply-Yields ospf_neighbors ids peer kind include_prefixes paging =
      ospf_reply-Yields "ospf_neighbors" "routing_bgp_ospf.ospfconfigs_ospfdiscoveredneighbors" ids
        paging
  routing_reply-Yields ospf_prefixes ids peer kind include_prefixes paging =
      ospf_reply-Yields "ospf_prefixes" "routing_bgp_ospf.ospfconfigs_ospfreachableprefixes" ids
        paging

  pub get_routing-IsReply :
      (operation : Routing) (element : Text) (site peer : Option Text) (kind : PrefixKind)
      (include_prefixes : Bool) (paging : Paging) (log : Log)
      → IsReply
          (codes "get_routing")
          (get_routing b truncate operation element site peer kind include_prefixes paging log).0
  unfolding get_routing
  get_routing-IsReply operation element site peer kind include_prefixes paging log =
      try_tool-IsReply b tool _
        (bind-Yields (IsReply tool) (ids_of b site (some element)) _ (λ ids.
          if_kept (Yields (IsReply tool)) (truthy ids.site_id && truthy ids.element_id) _ _
            (routing_reply-Yields operation ids peer kind include_prefixes paging)
            (refused-Yields "invalid_argument" "site and element must resolve to IDs" tool 400)))
        log
