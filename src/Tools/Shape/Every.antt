-- ===== src/Tools/Shape/Every.antt =====
-- tools/: the replies of the tools that read the controller.
use prisma_sdwan_mcp.Prelude.{Bool, Option, List}
use prisma_sdwan_mcp.Prelude.Int.{ℤ}
use prisma_sdwan_mcp.Prelude.Text.{Text, codes}
use prisma_sdwan_mcp.Value.{Value, Fields}
use prisma_sdwan_mcp.Response.Shape.{IsReply}
use prisma_sdwan_mcp.Tools.{Log, Toolbox}
use prisma_sdwan_mcp.Tools.Replies.{Paging}
use prisma_sdwan_mcp.Catalog.Describe.{Registry}
use prisma_sdwan_mcp.Tools.Policies.{Family, Operation, get_policies}
use prisma_sdwan_mcp.Tools.Policies.Security.{Security, get_security}
use prisma_sdwan_mcp.Tools.Routing.Get.{Routing, PrefixKind, get_routing}
use prisma_sdwan_mcp.Tools.Routing.Diagnostics.{Diagnostic, get_device_diagnostics}
use prisma_sdwan_mcp.Tools.Monitoring.Window.{Calendar}
use prisma_sdwan_mcp.Tools.Monitoring.Asked.{Monitoring, Question}
use prisma_sdwan_mcp.Tools.Monitoring.Get.{get_monitoring}
use prisma_sdwan_mcp.Tools.Discovery.Find.{ResourceKind, find_site, find_element, find_resource}
use prisma_sdwan_mcp.Tools.Discovery.Catalog.{list_capabilities, read_capability}
use prisma_sdwan_mcp.Tools.Discovery.Path.{resolve_path}
use prisma_sdwan_mcp.Tools.SiteConfig.{generate_site_config}
use prisma_sdwan_mcp.Tools.Shape.Domains.Every.{DomainReplies, domain_tools-IsReply}
use prisma_sdwan_mcp.Tools.Shape.Core.Every.{CoreReplies, core_tools-IsReply}
use prisma_sdwan_mcp.Tools.Shape.Policies.{get_policies-IsReply}
use prisma_sdwan_mcp.Tools.Shape.Security.{get_security-IsReply}
use prisma_sdwan_mcp.Tools.Shape.Routing.{get_routing-IsReply}
use prisma_sdwan_mcp.Tools.Shape.Diagnostics.{get_device_diagnostics-IsReply}
use prisma_sdwan_mcp.Tools.Shape.Monitoring.{get_monitoring-IsReply}
use prisma_sdwan_mcp.Tools.Shape.Find.{
  find_site-IsReply, find_element-IsReply, find_resource-IsReply, resolve_path-IsReply,
}
use prisma_sdwan_mcp.Tools.Shape.Capabilities.{list_capabilities-IsReply, read_capability-IsReply}
use prisma_sdwan_mcp.Tools.Shape.SiteConfig.{generate_site_config-IsReply}
use prisma_sdwan_mcp.Tools.Shape.Commands.{CommandReplies, commands-IsReply}
use prisma_sdwan_mcp.Cli.Run.{Server}

-- The tools of policies_security.py and routing_diagnostics.py.
abbrev pub PolicyReplies : Toolbox → (Text → ℤ) → Type 0
PolicyReplies b truncate =
    ((family : Option Family) (operation : Operation) (policy : Option Text) (paging : Paging)
        (log : Log)
      → IsReply (codes "get_policies") (get_policies b family operation policy paging log).0)
    × ((operation : Security) (site element app : Option Text) (paging : Paging) (log : Log)
        → IsReply (codes "get_security") (get_security b operation site element app paging log).0)
    × ((operation : Routing) (element : Text) (site peer : Option Text) (kind : PrefixKind)
          (include_prefixes : Bool) (paging : Paging) (log : Log)
        → IsReply (codes "get_routing")
            (get_routing b truncate operation element site peer kind include_prefixes paging log).0)
    × ((operation : Diagnostic) (element : Text) (site : Option Text) (paging : Paging) (log : Log)
        → IsReply (codes "get_device_diagnostics")
            (get_device_diagnostics b operation element site paging log).0)

-- The tools of discovery.py.
abbrev pub DiscoveryReplies : Toolbox → Registry → Type 0
DiscoveryReplies b r =
    ((name : Text) (paging : Paging) (log : Log)
      → IsReply (codes "find_site") (find_site b name paging log).0)
    × ((name : Text) (paging : Paging) (log : Log)
        → IsReply (codes "find_element") (find_element b name paging log).0)
    × ((kind : ResourceKind) (name : Text) (paging : Paging) (log : Log)
        → IsReply (codes "find_resource") (find_resource b kind name paging log).0)
    × ((site path_id : Text) (log : Log)
        → IsReply (codes "resolve_path") (resolve_path b site path_id log).0)
    × ((domain method action_id : Option Text) (full : Bool) (log : Log)
        → IsReply (codes "list_capabilities")
            (list_capabilities b r domain method action_id full log).0)
    × ((action_id : Text) (paths : Fields) (body : Option Fields) (paging : Paging) (full : Bool)
          (log : Log)
        → IsReply (codes "read_capability")
            (read_capability b r action_id paths body paging full log).0)

-- Whatever the controller, the device and the arguments are, each tool replies in its own name, with an
-- answer that has the version of the contract, or with an error that has a code, a message and the flag
-- for a new try; of run_commands this holds whenever it returns.
pub tools-IsReply :
    (b : Toolbox) (r : Registry) (cal : Calendar) (truncate : Text → ℤ)
    (violation : Fields → Option Text) (yaml : Fields → Text) {S Key : Type 0} (v : Server S Key)
    → DomainReplies b
      × CoreReplies b
      × PolicyReplies b truncate
      × DiscoveryReplies b r
      × ((operation : Monitoring) (q : Question) (log : Log)
          → IsReply (codes "get_monitoring") (get_monitoring b cal truncate operation q log).0)
      × ((site_id : Text) (elements : List Value)
          → IsReply
              (codes "generate_site_config")
              (generate_site_config b violation yaml site_id elements))
      × CommandReplies b v
tools-IsReply b r cal truncate violation yaml v = (
  domain_tools-IsReply b,
  core_tools-IsReply b,
  (
    get_policies-IsReply b,
    get_security-IsReply b,
    get_routing-IsReply b truncate,
    get_device_diagnostics-IsReply b,
  ),
  (
    find_site-IsReply b,
    find_element-IsReply b,
    find_resource-IsReply b,
    resolve_path-IsReply b,
    list_capabilities-IsReply b r,
    read_capability-IsReply b r,
  ),
  get_monitoring-IsReply b cal truncate,
  generate_site_config-IsReply b violation yaml,
  commands-IsReply b v,
)
