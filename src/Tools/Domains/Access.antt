-- ===== src/Tools/Domains/Access.antt =====
-- tools/domains.py: `get_service_connections` and `get_prisma_access`.
use prisma_sdwan_mcp.Prelude.{String, Bool, false, Option, none, some}
use prisma_sdwan_mcp.Prelude.Text.{Text, codes}
use prisma_sdwan_mcp.Value.{str, Fields, end, field, truthy}
use prisma_sdwan_mcp.Resolver.{given, SiteElement}
use prisma_sdwan_mcp.Tools.{Log, Toolbox, Step, return}
use prisma_sdwan_mcp.Tools.Replies.{Paging, invalid_argument}
use prisma_sdwan_mcp.Tools.Domains.{
  Answer, refused, read_with, read, require, at_site_id, at_ids, scoped_tool,
}

-- `ServiceConnectionOperation`
pub data ServiceConnection : Type 0 where
  tenant_connections site_connections endpoints binding_maps : ServiceConnection
  service_labels element_extensions site_extensions tenant_extensions : ServiceConnection

unfoldable pub service_connection_name : ServiceConnection → String
service_connection_name tenant_connections = "tenant_connections"
service_connection_name site_connections = "site_connections"
service_connection_name endpoints = "endpoints"
service_connection_name binding_maps = "binding_maps"
service_connection_name service_labels = "service_labels"
service_connection_name element_extensions = "element_extensions"
service_connection_name site_extensions = "site_extensions"
service_connection_name tenant_extensions = "tenant_extensions"

module _ (b : Toolbox) where
  unfoldable pub service_connection_read : ServiceConnection → SiteElement → Step Answer
  unfolding codes
  service_connection_read tenant_connections ids =
      read b "service_connections_extensions.tenant_serviceconnections"
  service_connection_read site_connections ids =
      at_site_id b ids "site is required" (codes "get_service_connections")
        "service_connections_extensions.site_serviceconnections"
  service_connection_read endpoints ids = read b "service_connections_extensions.serviceendpoints"
  service_connection_read binding_maps ids =
      read b "service_connections_extensions.servicebindingmaps"
  service_connection_read service_labels ids = read b "service_connections_extensions.servicelabels"
  service_connection_read tenant_extensions ids =
      read b "service_connections_extensions.tenant_extensions"
  service_connection_read site_extensions ids =
      at_site_id b ids "site is required" (codes "get_service_connections")
        "service_connections_extensions.site_extensions"
  service_connection_read element_extensions ids =
      at_ids b ids "site and element are required" (codes "get_service_connections")
        "service_connections_extensions.element_extensions"

  -- `full` says that `detail` is "full".
  unfoldable pub get_service_connections :
      ServiceConnection → Option Text → Option Text → Paging → Bool → Log → Fields × Log
  unfolding codes
  get_service_connections operation site element paging full =
      scoped_tool b (codes "get_service_connections") (codes (service_connection_name operation))
        site element paging full (service_connection_read operation)

-- `PrismaAccessOperation`
pub data PrismaAccess : Type 0 where
  site_config connections connection_status connection_config : PrismaAccess
  advertised_prefixes reachable_prefixes pa_networks : PrismaAccess
  integration_status adem_site_config adem_status : PrismaAccess

unfoldable pub prisma_access_name : PrismaAccess → String
prisma_access_name site_config = "site_config"
prisma_access_name connections = "connections"
prisma_access_name connection_status = "connection_status"
prisma_access_name connection_config = "connection_config"
prisma_access_name advertised_prefixes = "advertised_prefixes"
prisma_access_name reachable_prefixes = "reachable_prefixes"
prisma_access_name pa_networks = "pa_networks"
prisma_access_name integration_status = "integration_status"
prisma_access_name adem_site_config = "adem_site_config"
prisma_access_name adem_status = "adem_status"

module _ (b : Toolbox) where
  -- The site's connection whose id is given.
  unfoldable pub connection_status_of : SiteElement → Option Text → Step Answer
  unfolding given truthy codes
  connection_status_of ids object_id = elim (given object_id) [
    | none ↦ return (
        refused (
          invalid_argument "site and object_id (SASE connection ID) are required"
            (codes "get_prisma_access")))
    | some id ↦
        require b (truthy ids.site_id) "site and object_id (SASE connection ID) are required"
          (codes "get_prisma_access")
          (read_with b "platform_specialized.prismasase_connections_status"
            (field "site_id" ids.site_id (field "prismasase_connection_id" (str id) end)) none)
  ]

  unfoldable pub prisma_access_read : PrismaAccess → Option Text → SiteElement → Step Answer
  unfolding connection_status_of codes
  prisma_access_read site_config object_id ids =
      at_site_id b ids "site is required" (codes "get_prisma_access")
        "platform_specialized.prismaaccess_configs"
  prisma_access_read connections object_id ids =
      at_site_id b ids "site is required" (codes "get_prisma_access")
        "platform_specialized.prismasase_connections"
  prisma_access_read adem_site_config object_id ids =
      at_site_id b ids "site is required" (codes "get_prisma_access")
        "platform_specialized.demsiteconfigs"
  prisma_access_read adem_status object_id ids =
      at_site_id b ids "site is required" (codes "get_prisma_access")
        "platform_specialized.demstatus"
  prisma_access_read connection_status object_id ids = connection_status_of ids object_id
  prisma_access_read connection_config object_id ids =
      read b "platform_specialized.prismasase_connections_configs"
  prisma_access_read advertised_prefixes object_id ids =
      at_ids b ids "site and element are required" (codes "get_prisma_access")
        "platform_specialized.pa_advertisedprefixes"
  prisma_access_read reachable_prefixes object_id ids =
      at_ids b ids "site and element are required" (codes "get_prisma_access")
        "platform_specialized.pa_reachableprefixes"
  prisma_access_read pa_networks object_id ids = read b "platform_specialized.panetworks"
  prisma_access_read integration_status object_id ids =
      read b "platform_specialized.pasdwan_integration_status"

  unfoldable pub get_prisma_access :
      PrismaAccess → Option Text → Option Text → Option Text → Paging → Log → Fields × Log
  unfolding codes
  get_prisma_access operation site element object_id paging =
      scoped_tool b (codes "get_prisma_access") (codes (prisma_access_name operation)) site element
        paging false (prisma_access_read operation object_id)
