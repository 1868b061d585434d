-- ===== src/Tools/Domains/Network.antt =====
-- tools/domains.py: `get_network_services`, `get_multicast` and `get_ipfix`.
use prisma_sdwan_mcp.Prelude.{if◌then◌else◌, String, false, Option, none, some, List, [], ◌∷◌, map}
use prisma_sdwan_mcp.Prelude.Text.{Text, codes, strip}
use prisma_sdwan_mcp.Value.{
  Value, str, list, dict, Fields, end, field, of_items, get_or_null, truthy,
}
use prisma_sdwan_mcp.Resolver.Records.{records, project}
use prisma_sdwan_mcp.Resolver.{given, SiteElement}
use prisma_sdwan_mcp.Response.{structured_error}
use prisma_sdwan_mcp.Response.Envelope.{count}
use prisma_sdwan_mcp.Tools.{Log, Toolbox, Step, return, ◌>>=◌, execute}
use prisma_sdwan_mcp.Tools.Replies.{Paging}
use prisma_sdwan_mcp.Tools.Domains.{
  Answer, refused, site_paths, element_paths, id_paths, read_with, read, query, require, at_site_id,
  at_element_id, at_ids, scoped_tool,
}

-- `NetworkServiceOperation`
pub data NetworkService : Type 0 where
  dns_services dns_profiles dns_roles dhcp_servers ntp ntp_status : NetworkService
  syslog_profiles syslog_servers snmp_agents snmp_traps : NetworkService
  tacacs_profiles tacacs_servers radius : NetworkService

unfoldable pub network_service_name : NetworkService → String
network_service_name dns_services = "dns_services"
network_service_name dns_profiles = "dns_profiles"
network_service_name dns_roles = "dns_roles"
network_service_name dhcp_servers = "dhcp_servers"
network_service_name ntp = "ntp"
network_service_name ntp_status = "ntp_status"
network_service_name syslog_profiles = "syslog_profiles"
network_service_name syslog_servers = "syslog_servers"
network_service_name snmp_agents = "snmp_agents"
network_service_name snmp_traps = "snmp_traps"
network_service_name tacacs_profiles = "tacacs_profiles"
network_service_name tacacs_servers = "tacacs_servers"
network_service_name radius = "radius"

module _ (b : Toolbox) where
  unfoldable pub several_ntp : List Fields → Fields
  unfolding codes structured_error project
  several_ntp configs =
      structured_error (codes "ambiguous_match")
        (codes "object_id is required unless the element has exactly one NTP configuration")
        (codes "get_network_services") (count 409)
        (field "candidates"
          (list (of_items (map (λ x. dict (project ("id" ∷ "name" ∷ []) x)) configs))) end)

  unfoldable pub ntp_status_of : SiteElement → Value → Step Answer
  ntp_status_of ids ntp_id =
      read_with b "platform_specialized.ntp_status"
        (field "element_id" ids.element_id (field "ntp_id" ntp_id end)) none

  -- The status of the element's only NTP configuration.
  unfoldable pub only_ntp : SiteElement → List Fields → Step Answer
  unfolding several_ntp ntp_status_of get_or_null
  only_ntp ids (config ∷ []) = ntp_status_of ids (get_or_null "id" config)
  only_ntp ids configs = return (refused (several_ntp configs))

  unfoldable pub find_ntp : SiteElement → Option Text → Step Answer
  unfolding given strip records only_ntp ntp_status_of
  find_ntp ids object_id =
      elim (given (elim (given object_id) [ none ↦ none | some s ↦ some (strip s) ])) [
        | some ntp_id ↦ ntp_status_of ids (str ntp_id)
        | none ↦ do
          data_ ← execute b "platform_specialized.ntp" (element_paths ids) none
          only_ntp ids (records data_)
      ]

  unfoldable pub network_service_read : NetworkService → Option Text → SiteElement → Step Answer
  unfolding find_ntp codes
  network_service_read dns_profiles object_id ids = read b "dns_services.dnsserviceprofiles"
  network_service_read dns_roles object_id ids = read b "dns_services.dnsserviceroles"
  network_service_read syslog_profiles object_id ids =
      read b "platform_specialized.syslogserverprofiles"
  network_service_read tacacs_profiles object_id ids =
      read b "platform_specialized.tacacs_plus_profiles"
  network_service_read dns_services object_id ids =
      at_ids b ids "site and element are required for this operation" (codes "get_network_services")
        "dns_services.dnsservices"
  network_service_read syslog_servers object_id ids =
      at_ids b ids "site and element are required for this operation" (codes "get_network_services")
        "platform_specialized.syslogservers"
  network_service_read snmp_agents object_id ids =
      at_ids b ids "site and element are required for this operation" (codes "get_network_services")
        "platform_specialized.snmpagents"
  network_service_read snmp_traps object_id ids =
      at_ids b ids "site and element are required for this operation" (codes "get_network_services")
        "platform_specialized.snmptraps"
  network_service_read tacacs_servers object_id ids =
      at_ids b ids "site and element are required for this operation" (codes "get_network_services")
        "platform_specialized.tacacs_plus_servers"
  network_service_read dhcp_servers object_id ids =
      at_site_id b ids "site is required" (codes "get_network_services") "vpn_wan.dhcpservers"
  network_service_read ntp object_id ids =
      at_element_id b ids "element is required" (codes "get_network_services")
        "platform_specialized.ntp"
  network_service_read radius object_id ids =
      at_element_id b ids "element is required" (codes "get_network_services")
        "platform_specialized.radii"
  network_service_read ntp_status object_id ids =
      require b (truthy ids.element_id) "element is required" (codes "get_network_services")
        (find_ntp ids object_id)

  unfoldable pub get_network_services :
      NetworkService → Option Text → Option Text → Option Text → Paging → Log → Fields × Log
  unfolding codes
  get_network_services operation site element object_id paging =
      scoped_tool b (codes "get_network_services") (codes (network_service_name operation)) site
        element paging false (network_service_read operation object_id)

-- `MulticastOperation`
pub data Multicast : Type 0 where
  config dynamic_rps rps peer_groups protocol_parameters : Multicast
  source_rps source_site_config wan_status routes igmp_memberships : Multicast

unfoldable pub multicast_name : Multicast → String
multicast_name config = "config"
multicast_name dynamic_rps = "dynamic_rps"
multicast_name rps = "rps"
multicast_name peer_groups = "peer_groups"
multicast_name protocol_parameters = "protocol_parameters"
multicast_name source_rps = "source_rps"
multicast_name source_site_config = "source_site_config"
multicast_name wan_status = "wan_status"
multicast_name routes = "routes"
multicast_name igmp_memberships = "igmp_memberships"

-- `{k: {"eq": v} for k, v in … if v}`
eq_filters : Fields → Fields
unfolding truthy
eq_filters end = end
eq_filters (field k v fs) =
    let rest = eq_filters fs in if truthy v then field k (dict (field "eq" v end)) rest else rest

unfoldable pub multicast_body : SiteElement → Fields
unfolding eq_filters truthy
multicast_body ids =
    let filters = eq_filters (id_paths ids) in
    if truthy (dict filters) then field "query_params" (dict filters) end else end

module _ (b : Toolbox) where
  unfoldable pub at_both : SiteElement → String → Step Answer
  unfolding codes
  at_both ids action =
      at_ids b ids "site and element are required for this multicast operation"
        (codes "get_multicast") action

  unfoldable pub multicast_read : Multicast → SiteElement → Step Answer
  unfolding at_both multicast_body codes
  multicast_read peer_groups ids = read b "multicast.multicastpeergroups"
  multicast_read source_rps ids =
      at_site_id b ids "site is required" (codes "get_multicast") "multicast.multicastsourcesiderps"
  multicast_read source_site_config ids =
      at_site_id b ids "site is required" (codes "get_multicast")
        "multicast.multicastsourcesiteconfigs"
  multicast_read routes ids = query b "multicast.multicastroutes_query" (multicast_body ids)
  multicast_read igmp_memberships ids =
      query b "multicast.multicastigmpmemberships_query" (multicast_body ids)
  multicast_read config ids = at_both ids "multicast.multicastglobalconfigs"
  multicast_read dynamic_rps ids = at_both ids "multicast.multicastdynamicrps"
  multicast_read rps ids = at_both ids "multicast.multicastrps"
  multicast_read protocol_parameters ids = at_both ids "multicast.multicastprotocolparameters"
  multicast_read wan_status ids = at_both ids "multicast.multicastwanstatus"

  unfoldable pub get_multicast : Multicast → Option Text → Option Text → Paging → Log → Fields × Log
  unfolding codes
  get_multicast operation site element paging =
      scoped_tool b (codes "get_multicast") (codes (multicast_name operation)) site element paging
        false (multicast_read operation)

-- `IPFIXOperation`
pub data Ipfix : Type 0 where
  ipfix_config collectors filters profiles templates global_prefixes local_prefixes : Ipfix

unfoldable pub ipfix_name : Ipfix → String
ipfix_name ipfix_config = "config"
ipfix_name collectors = "collectors"
ipfix_name filters = "filters"
ipfix_name profiles = "profiles"
ipfix_name templates = "templates"
ipfix_name global_prefixes = "global_prefixes"
ipfix_name local_prefixes = "local_prefixes"

module _ (b : Toolbox) where
  unfoldable pub ipfix_read : Ipfix → SiteElement → Step Answer
  unfolding codes truthy
  ipfix_read ipfix_config ids =
      at_ids b ids "site and element are required" (codes "get_ipfix") "flow_monitoring_ipfix.ipfix"
  ipfix_read collectors ids = read b "flow_monitoring_ipfix.ipfixcollectorcontexts"
  ipfix_read filters ids = read b "flow_monitoring_ipfix.ipfixfiltercontexts"
  ipfix_read profiles ids = read b "flow_monitoring_ipfix.ipfixprofiles"
  ipfix_read templates ids = read b "flow_monitoring_ipfix.ipfixtemplates"
  ipfix_read global_prefixes ids = read b "flow_monitoring_ipfix.ipfixglobalprefixes"
  ipfix_read local_prefixes ids =
      if truthy ids.site_id
      then read_with b "flow_monitoring_ipfix.site_ipfixlocalprefixes" (site_paths ids) none
      else read b "flow_monitoring_ipfix.tenant_ipfixlocalprefixes"

  unfoldable pub get_ipfix : Ipfix → Option Text → Option Text → Paging → Log → Fields × Log
  unfolding codes
  get_ipfix operation site element paging =
      scoped_tool b (codes "get_ipfix") (codes (ipfix_name operation)) site element paging false
        (ipfix_read operation)
