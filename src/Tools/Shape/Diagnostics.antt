-- ===== src/Tools/Shape/Diagnostics.antt =====
-- tools/routing_diagnostics.py: the reply of `get_device_diagnostics`.
use prisma_sdwan_mcp.Prelude.{refl, inr, false, Option, none, some}
use prisma_sdwan_mcp.Prelude.Text.{Text, codes}
use prisma_sdwan_mcp.Value.{get, has, truthy}
use prisma_sdwan_mcp.Resolver.{SiteElement}
use prisma_sdwan_mcp.Response.Shape.{IsReply}
use prisma_sdwan_mcp.Tools.{Log, Toolbox, ids_of}
use prisma_sdwan_mcp.Tools.Replies.{Paging}
use prisma_sdwan_mcp.Tools.Shape.{
  apart, Yields, return-Yields, bind-Yields, chain-Yields, try_tool-IsReply, listing-Yields,
  unless_failed-Yields,
}
use prisma_sdwan_mcp.Tools.Domains.{Answer, refused, answered, element_paths, id_paths}
use prisma_sdwan_mcp.Tools.Routing.Diagnostics.{
  tool, Diagnostic, lldp_neighbors, mac_table, port_to_vlan, vlan_to_port, bfd_peers,
  application_probe, diagnostic_read, diagnostic_items, diagnostic_reply, get_device_diagnostics,
}
use prisma_sdwan_mcp.Tools.Shape.Domains.{
  IsRefusal, Refuses, read_with-Refuses, require-Refuses, at_site_id-Refuses,
}

module _ (b : Toolbox) where
  diagnostic_read-Refuses :
      (operation : Diagnostic) (ids : SiteElement) → Refuses tool (diagnostic_read b operation ids)
  unfolding diagnostic_read
  diagnostic_read-Refuses lldp_neighbors ids = read_with-Refuses b tool _ (element_paths ids) none
  diagnostic_read-Refuses mac_table ids = read_with-Refuses b tool _ (element_paths ids) none
  diagnostic_read-Refuses bfd_peers ids = at_site_id-Refuses b tool ids _ _
  diagnostic_read-Refuses port_to_vlan ids =
      require-Refuses b tool (truthy ids.site_id) _ _
        (read_with-Refuses b tool _ (id_paths ids) none)
  diagnostic_read-Refuses vlan_to_port ids =
      require-Refuses b tool (truthy ids.site_id) _ _
        (read_with-Refuses b tool _ (id_paths ids) none)
  diagnostic_read-Refuses application_probe ids =
      require-Refuses b tool (truthy ids.site_id) _ _
        (read_with-Refuses b tool _ (id_paths ids) none)

  diagnostic_reply-Yields :
      (operation : Diagnostic) (ids : SiteElement) (paging : Paging) (answer : Answer)
      → IsRefusal tool answer
      → Yields (IsReply tool) (diagnostic_reply b operation ids paging answer)
  unfolding diagnostic_reply diagnostic_items has get
  diagnostic_reply-Yields operation ids paging (refused reply) e =
      return-Yields (IsReply tool) reply (inr e)
  diagnostic_reply-Yields operation ids paging (answered data_) e =
      unless_failed-Yields b tool data_ _
        (listing-Yields b tool _ "items" paging _ none false _ (apart refl refl refl refl))

  pub get_device_diagnostics-IsReply :
      (operation : Diagnostic) (element : Text) (site : Option Text) (paging : Paging) (log : Log)
      → IsReply
          (codes "get_device_diagnostics")
          (get_device_diagnostics b operation element site paging log).0
  unfolding get_device_diagnostics
  get_device_diagnostics-IsReply operation element site paging log =
      try_tool-IsReply b tool _
        (bind-Yields (IsReply tool) (ids_of b site (some element)) _ (λ ids.
          chain-Yields (IsRefusal tool) (IsReply tool) _ _
            (require-Refuses b tool (truthy ids.element_id) _ _
              (diagnostic_read-Refuses operation ids))
            (λ answer e. diagnostic_reply-Yields operation ids paging answer e)))
        log
