-- ===== src/Tools/Shape/Domains/Every.antt =====
-- tools/domains.py: the replies of all its tools.
use prisma_sdwan_mcp.Prelude.{Bool, false, Option}
use prisma_sdwan_mcp.Prelude.Text.{Text, codes}
use prisma_sdwan_mcp.Response.Shape.{IsReply}
use prisma_sdwan_mcp.Tools.{Log, Toolbox}
use prisma_sdwan_mcp.Tools.Replies.{Paging}
use prisma_sdwan_mcp.Tools.Domains.Network.{
  NetworkService, network_service_name, network_service_read, get_network_services, Multicast,
  multicast_name, multicast_read, get_multicast, Ipfix, ipfix_name, ipfix_read, get_ipfix,
}
use prisma_sdwan_mcp.Tools.Domains.Access.{
  ServiceConnection, service_connection_name, service_connection_read, get_service_connections,
  PrismaAccess, prisma_access_name, prisma_access_read, get_prisma_access,
}
use prisma_sdwan_mcp.Tools.Domains.Assets.{
  Cellular, cellular_name, Software, software_name, Identity, identity_name, Platform,
  platform_name, cellular_read, get_cellular, software_read, get_software, identity_read,
  get_identity, platform_read, get_platform,
}
use prisma_sdwan_mcp.Tools.Shape.Domains.{scoped_tool-IsReply, plain_tool-IsReply}
use prisma_sdwan_mcp.Tools.Shape.Domains.Network.{
  network_service_read-Refuses, multicast_read-Refuses, ipfix_read-Refuses,
}
use prisma_sdwan_mcp.Tools.Shape.Domains.Access.{
  service_connection_read-Refuses, prisma_access_read-Refuses,
}
use prisma_sdwan_mcp.Tools.Shape.Domains.Assets.{
  cellular_read-Refuses, software_read-Refuses, identity_read-Refuses, platform_read-Refuses,
}

-- Each tool replies in its own name.
abbrev pub DomainReplies : Toolbox → Type 0
DomainReplies b =
    ((operation : NetworkService) (site element object_id : Option Text) (paging : Paging)
        (log : Log)
      → IsReply (codes "get_network_services")
          (get_network_services b operation site element object_id paging log).0)
    × ((operation : Multicast) (site element : Option Text) (paging : Paging) (log : Log)
        → IsReply (codes "get_multicast") (get_multicast b operation site element paging log).0)
    × ((operation : Ipfix) (site element : Option Text) (paging : Paging) (log : Log)
        → IsReply (codes "get_ipfix") (get_ipfix b operation site element paging log).0)
    × ((operation : ServiceConnection) (site element : Option Text) (paging : Paging) (full : Bool)
          (log : Log)
        → IsReply (codes "get_service_connections")
            (get_service_connections b operation site element paging full log).0)
    × ((operation : PrismaAccess) (site element object_id : Option Text) (paging : Paging)
          (log : Log)
        → IsReply (codes "get_prisma_access")
            (get_prisma_access b operation site element object_id paging log).0)
    × ((operation : Cellular) (element machine : Option Text) (paging : Paging) (full : Bool)
          (log : Log)
        → IsReply (codes "get_cellular")
            (get_cellular b operation element machine paging full log).0)
    × ((operation : Software) (element : Option Text) (paging : Paging) (full : Bool) (log : Log)
        → IsReply (codes "get_software") (get_software b operation element paging full log).0)
    × ((operation : Identity) (object_id : Option Text) (paging : Paging) (full : Bool) (log : Log)
        → IsReply (codes "get_identity") (get_identity b operation object_id paging full log).0)
    × ((operation : Platform) (machine folder : Option Text) (paging : Paging) (full : Bool)
          (log : Log)
        → IsReply (codes "get_platform")
            (get_platform b operation machine folder paging full log).0)

pub domain_tools-IsReply : (b : Toolbox) → DomainReplies b
unfolding get_network_services get_multicast get_ipfix get_service_connections get_prisma_access
    get_cellular get_software get_identity get_platform
domain_tools-IsReply b = (
  λ operation site element object_id paging log.
      scoped_tool-IsReply b (codes "get_network_services") (codes (network_service_name operation))
        site element paging false (network_service_read b operation object_id)
        (λ ids. network_service_read-Refuses b operation object_id ids) log,
  λ operation site element paging log.
      scoped_tool-IsReply b (codes "get_multicast") (codes (multicast_name operation)) site element
        paging false (multicast_read b operation) (λ ids. multicast_read-Refuses b operation ids)
        log,
  λ operation site element paging log.
      scoped_tool-IsReply b (codes "get_ipfix") (codes (ipfix_name operation)) site element paging
        false (ipfix_read b operation) (λ ids. ipfix_read-Refuses b operation ids) log,
  λ operation site element paging full log.
      scoped_tool-IsReply b (codes "get_service_connections")
        (codes (service_connection_name operation)) site element paging full
        (service_connection_read b operation)
        (λ ids. service_connection_read-Refuses b operation ids) log,
  λ operation site element object_id paging log.
      scoped_tool-IsReply b (codes "get_prisma_access") (codes (prisma_access_name operation)) site
        element paging false (prisma_access_read b operation object_id)
        (λ ids. prisma_access_read-Refuses b operation object_id ids) log,
  λ operation element machine paging full log.
      plain_tool-IsReply b (codes "get_cellular") (codes (cellular_name operation)) paging full
        (cellular_read b operation element machine)
        (cellular_read-Refuses b operation element machine) log,
  λ operation element paging full log.
      plain_tool-IsReply b (codes "get_software") (codes (software_name operation)) paging full
        (software_read b operation element) (software_read-Refuses b operation element) log,
  λ operation object_id paging full log.
      plain_tool-IsReply b (codes "get_identity") (codes (identity_name operation)) paging full
        (identity_read b operation object_id) (identity_read-Refuses b operation object_id) log,
  λ operation machine folder paging full log.
      plain_tool-IsReply b (codes "get_platform") (codes (platform_name operation)) paging full
        (platform_read b operation machine folder)
        (platform_read-Refuses b operation machine folder) log,
)
