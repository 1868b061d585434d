-- ===== src/Tools/Shape/Core/Topology.antt =====
-- tools/core.py: the reply of `get_topology`.
use prisma_sdwan_mcp.Prelude.{if_kept, ℕ, refl, false, not, ◌&&◌, Option, none, List}
use prisma_sdwan_mcp.Prelude.Int.{below, to_nat}
use prisma_sdwan_mcp.Prelude.Text.{Text, codes}
use prisma_sdwan_mcp.Value.{Value, end, of_items, get, has, truthy, dicts}
use prisma_sdwan_mcp.Response.Shape.{IsReply}
use prisma_sdwan_mcp.Tools.{Log, Toolbox, raising, execute, max_fanout, gather}
use prisma_sdwan_mcp.Tools.Replies.{Paging}
use prisma_sdwan_mcp.Tools.Shape.{
  apart, Yields, bind-Yields, refused-Yields, try_tool-IsReply, listing-Yields,
  unless_failed-Yields,
}
use prisma_sdwan_mcp.Tools.Core.Topology.{
  tool, leg_status, Query, window, basenet_reply, basenet, summary_reply, full_reply, site_id_of,
  view_reply, topology_reply, is_unfiltered, get_topology,
}
use prisma_sdwan_mcp.Tools.Core.Topology.Links.{elements_at, all_legs}

module _ (b : Toolbox) where
  basenet-Yields :
      (site : Option Text) (site_id : Value) (leg_offset : ℕ) (paging : Paging) (links : List Value)
      → Yields (IsReply tool) (basenet b site site_id leg_offset paging links)
  unfolding basenet basenet_reply has get
  basenet-Yields site site_id leg_offset paging links =
      bind-Yields (IsReply tool) (raising (all_legs b.repr (dicts (of_items links)))) _ (λ legs.
        bind-Yields (IsReply tool) (max_fanout b) _ (λ cap.
          bind-Yields (IsReply tool) (gather (leg_status b) (window cap leg_offset legs)) _
            (λ entries.
              listing-Yields b tool _ "links" paging _ none false _ (apart refl refl refl refl))))

  view_reply-Yields :
      (q : Query) (paging : Paging) (site_id : Value) (nodes links : List Value)
      → Yields (IsReply tool) (view_reply b q paging site_id nodes links)
  unfolding view_reply full_reply summary_reply has get
  view_reply-Yields q paging site_id nodes links =
      if_kept (Yields (IsReply tool)) q.basenet_view _ _
        (basenet-Yields q.site site_id (to_nat q.leg_offset) paging links)
        (if_kept (Yields (IsReply tool)) q.full _ _
          (listing-Yields b tool _ "links" paging _ none false _ (apart refl refl refl refl))
          (listing-Yields b tool _ "not_up_links" paging _ none false _
            (apart refl refl refl refl)))

  topology_reply-Yields :
      (q : Query) (paging : Paging) (site_id data_ : Value)
      → Yields (IsReply tool) (topology_reply b q paging site_id data_)
  unfolding topology_reply
  topology_reply-Yields q paging site_id data_ =
      if_kept (Yields (IsReply tool)) (q.basenet_view && not (truthy site_id)) _ _
        (refused-Yields "invalid_argument" "view='basenet' requires site" tool 400)
        (if_kept (Yields (IsReply tool)) (below q.leg_offset 0) _ _
          (refused-Yields "invalid_argument" "leg_offset must be a non-negative integer" tool 400)
          (bind-Yields (IsReply tool) _ _
            (λ kept. view_reply-Yields q paging site_id (elements_at "nodes" data_) kept)))

  pub get_topology-IsReply :
      (q : Query) (paging : Paging) (log : Log)
      → IsReply (codes "get_topology") (get_topology b q paging log).0
  unfolding get_topology
  get_topology-IsReply q paging log =
      try_tool-IsReply b tool _
        (bind-Yields (IsReply tool) (site_id_of b q.site) _ (λ site_id.
          if_kept (Yields (IsReply tool)) (is_unfiltered b q site_id) _ _
            (refused-Yields "invalid_argument" "detail='full' requires site or status" tool 400)
            (bind-Yields (IsReply tool) (execute b "compat.topology" end _) _ (λ data_.
              unless_failed-Yields b tool data_ _ (topology_reply-Yields q paging site_id data_)))))
        log
