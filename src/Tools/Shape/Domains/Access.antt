-- ===== src/Tools/Shape/Domains/Access.antt =====
-- tools/domains.py: the service connections and Prisma Access refuse in the name of their tool.
use prisma_sdwan_mcp.Prelude.{Option-cases, inl, inr, Option}
use prisma_sdwan_mcp.Prelude.Text.{Text, codes}
use prisma_sdwan_mcp.Value.{truthy}
use prisma_sdwan_mcp.Resolver.{given, SiteElement}
use prisma_sdwan_mcp.Tools.{Toolbox}
use prisma_sdwan_mcp.Tools.Domains.Access.{
  ServiceConnection, tenant_connections, site_connections, endpoints, binding_maps, service_labels,
  element_extensions, site_extensions, tenant_extensions, service_connection_read, PrismaAccess,
  site_config, connections, connection_status, connection_config, advertised_prefixes,
  reachable_prefixes, pa_networks, integration_status, adem_site_config, adem_status,
  connection_status_of, prisma_access_read,
}
use prisma_sdwan_mcp.Tools.Shape.Domains.{
  Refuses, invalid-Refuses, read_with-Refuses, require-Refuses, at_site_id-Refuses, at_ids-Refuses,
}

module _ (b : Toolbox) where
  pub service_connection_read-Refuses :
      (operation : ServiceConnection) (ids : SiteElement)
      → Refuses (codes "get_service_connections") (service_connection_read b operation ids)
  unfolding service_connection_read
  service_connection_read-Refuses tenant_connections ids =
      read_with-Refuses b (codes "get_service_connections") _ _ _
  service_connection_read-Refuses endpoints ids =
      read_with-Refuses b (codes "get_service_connections") _ _ _
  service_connection_read-Refuses binding_maps ids =
      read_with-Refuses b (codes "get_service_connections") _ _ _
  service_connection_read-Refuses service_labels ids =
      read_with-Refuses b (codes "get_service_connections") _ _ _
  service_connection_read-Refuses tenant_extensions ids =
      read_with-Refuses b (codes "get_service_connections") _ _ _
  service_connection_read-Refuses site_connections ids =
      at_site_id-Refuses b (codes "get_service_connections") ids _ _
  service_connection_read-Refuses site_extensions ids =
      at_site_id-Refuses b (codes "get_service_connections") ids _ _
  service_connection_read-Refuses element_extensions ids =
      at_ids-Refuses b (codes "get_service_connections") ids _ _

  connection_status_of-Refuses :
      (ids : SiteElement) (object_id : Option Text)
      → Refuses (codes "get_prisma_access") (connection_status_of b ids object_id)
  unfolding connection_status_of
  connection_status_of-Refuses ids object_id = elim (Option-cases (given object_id)) [
    | inl e ↦ rw (connection_status_of, e) (invalid-Refuses b (codes "get_prisma_access") _)
    | inr (id, e) ↦
        rw (connection_status_of, e)
          (require-Refuses b (codes "get_prisma_access") (truthy ids.site_id) _ _
            (read_with-Refuses b (codes "get_prisma_access") _ _ _))
  ]

  pub prisma_access_read-Refuses :
      (operation : PrismaAccess) (object_id : Option Text) (ids : SiteElement)
      → Refuses (codes "get_prisma_access") (prisma_access_read b operation object_id ids)
  unfolding prisma_access_read
  prisma_access_read-Refuses site_config object_id ids =
      at_site_id-Refuses b (codes "get_prisma_access") ids _ _
  prisma_access_read-Refuses connections object_id ids =
      at_site_id-Refuses b (codes "get_prisma_access") ids _ _
  prisma_access_read-Refuses adem_site_config object_id ids =
      at_site_id-Refuses b (codes "get_prisma_access") ids _ _
  prisma_access_read-Refuses adem_status object_id ids =
      at_site_id-Refuses b (codes "get_prisma_access") ids _ _
  prisma_access_read-Refuses connection_status object_id ids =
      connection_status_of-Refuses ids object_id
  prisma_access_read-Refuses connection_config object_id ids =
      read_with-Refuses b (codes "get_prisma_access") _ _ _
  prisma_access_read-Refuses pa_networks object_id ids =
      read_with-Refuses b (codes "get_prisma_access") _ _ _
  prisma_access_read-Refuses integration_status object_id ids =
      read_with-Refuses b (codes "get_prisma_access") _ _ _
  prisma_access_read-Refuses advertised_prefixes object_id ids =
      at_ids-Refuses b (codes "get_prisma_access") ids _ _
  prisma_access_read-Refuses reachable_prefixes object_id ids =
      at_ids-Refuses b (codes "get_prisma_access") ids _ _
