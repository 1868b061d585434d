-- ===== src/Tools/Domains/Scope/Operations.antt =====
-- tools/domains.py: the reads of each operation of the tools with a site and an element.
use prisma_sdwan_mcp.Prelude.{
  Bool-cases, Option-cases, ◌≡◌, refl, inl, inr, Bool, true, Option, none, some, List, [], ◌∷◌,
  arith,
}
use prisma_sdwan_mcp.Prelude.Text.{Text, strip}
use prisma_sdwan_mcp.Value.{Value, str, Fields, get, truthy}
use prisma_sdwan_mcp.Resolver.Records.{records}
use prisma_sdwan_mcp.Resolver.{given, SiteElement}
use prisma_sdwan_mcp.Tools.{Toolbox, Step}
use prisma_sdwan_mcp.Tools.Replies.{Paging}
use prisma_sdwan_mcp.Tools.Calls.{Adds, more-Adds, bind-Adds, execute-Adds}
use prisma_sdwan_mcp.Tools.Domains.{Answer, site_paths, element_paths}
use prisma_sdwan_mcp.Tools.Domains.Access.{
  ServiceConnection, tenant_connections, site_connections, endpoints, binding_maps, service_labels,
  element_extensions, site_extensions, tenant_extensions, service_connection_read,
  get_service_connections, PrismaAccess, site_config, connections, connection_status,
  connection_config, advertised_prefixes, reachable_prefixes, pa_networks, integration_status,
  adem_site_config, adem_status, connection_status_of, prisma_access_read, get_prisma_access,
}
use prisma_sdwan_mcp.Tools.Domains.Network.{
  NetworkService, dns_services, dns_profiles, dns_roles, dhcp_servers, ntp, ntp_status,
  syslog_profiles, syslog_servers, snmp_agents, snmp_traps, tacacs_profiles, tacacs_servers, radius,
  ntp_status_of, only_ntp, find_ntp, network_service_read, get_network_services, Multicast, config,
  dynamic_rps, rps, peer_groups, protocol_parameters, source_rps, source_site_config, wan_status,
  routes, igmp_memberships, at_both, multicast_read, get_multicast, Ipfix, ipfix_config, collectors,
  filters, profiles, templates, global_prefixes, local_prefixes, ipfix_read, get_ipfix,
}
use prisma_sdwan_mcp.Tools.Domains.Scope.{
  is_given, HasIds, not_needed, Reads, no_ids, read_with-Reads, read-Reads, require-Reads,
  at_site_id-Reads, at_element_id-Reads, at_ids-Reads, scoped_tool-Reads,
}

module _ (b : Toolbox) where
  one_of_two : {m : Step Answer} → Reads 1 m → Reads 2 m
  one_of_two = more-Adds _ 1 2 (omega arith)

  ntp_status_of-Reads :
      (ids : SiteElement) (ntp_id : Value)
      → truthy ids.element_id ≡ true
      → Reads 1 (ntp_status_of b ids ntp_id)
  unfolding ntp_status_of is_given get
  ntp_status_of-Reads ids ntp_id h =
      read_with-Reads b _ _ none (not_needed refl) (λ n. (ids.element_id, refl, h)) refl h

  only_ntp-Reads :
      (ids : SiteElement) (configs : List Fields)
      → truthy ids.element_id ≡ true
      → Reads 1 (only_ntp b ids configs)
  unfolding only_ntp
  only_ntp-Reads ids [] h = no_ids b (λ log. refl)
  only_ntp-Reads ids (c ∷ []) h = ntp_status_of-Reads ids _ h
  only_ntp-Reads ids (c ∷ c' ∷ cs) h = no_ids b (λ log. refl)

  find_ntp-Reads :
      (ids : SiteElement) (object_id : Option Text)
      → truthy ids.element_id ≡ true
      → Reads 2 (find_ntp b ids object_id)
  unfolding find_ntp is_given get
  find_ntp-Reads ids object_id h =
      elim (Option-cases (
        given (elim (given object_id) as (λ x. Option Text) [
          | none ↦ none
          | some s ↦ some (strip s)
        ]))) [
          | inr (ntp_id, e) ↦
              rw (find_ntp, e)
                (more-Adds _ 1 2 (omega arith) (ntp_status_of-Reads ids (str ntp_id) h))
          | inl e ↦
              rw (find_ntp, e)
                (bind-Adds 1 1 2 (omega arith)
                  (execute-Adds b "platform_specialized.ntp" (element_paths ids) none
                    (not_needed refl, λ n. (ids.element_id, refl, h), refl, h))
                  (λ data_. only_ntp-Reads ids (records data_) h))
        ]

  network_service_read-Reads :
      (operation : NetworkService) (object_id : Option Text) (ids : SiteElement)
      → Reads 2 (network_service_read b operation object_id ids)
  unfolding network_service_read
  network_service_read-Reads dns_profiles object_id ids = one_of_two (read-Reads b _ _ refl refl)
  network_service_read-Reads dns_roles object_id ids = one_of_two (read-Reads b _ _ refl refl)
  network_service_read-Reads syslog_profiles object_id ids = one_of_two (read-Reads b _ _ refl refl)
  network_service_read-Reads tacacs_profiles object_id ids = one_of_two (read-Reads b _ _ refl refl)
  network_service_read-Reads dns_services object_id ids = one_of_two (at_ids-Reads b ids _ _ _)
  network_service_read-Reads syslog_servers object_id ids = one_of_two (at_ids-Reads b ids _ _ _)
  network_service_read-Reads snmp_agents object_id ids = one_of_two (at_ids-Reads b ids _ _ _)
  network_service_read-Reads snmp_traps object_id ids = one_of_two (at_ids-Reads b ids _ _ _)
  network_service_read-Reads tacacs_servers object_id ids = one_of_two (at_ids-Reads b ids _ _ _)
  network_service_read-Reads dhcp_servers object_id ids =
      one_of_two (at_site_id-Reads b ids _ _ _ refl)
  network_service_read-Reads ntp object_id ids = one_of_two (at_element_id-Reads b ids _ _ _ refl)
  network_service_read-Reads radius object_id ids =
      one_of_two (at_element_id-Reads b ids _ _ _ refl)
  network_service_read-Reads ntp_status object_id ids =
      require-Reads b _ _ _ _ 2 (λ e. find_ntp-Reads ids object_id e)

  multicast_read-Reads :
      (operation : Multicast) (ids : SiteElement) → Reads 1 (multicast_read b operation ids)
  unfolding multicast_read at_both
  multicast_read-Reads peer_groups ids = read-Reads b _ _ refl refl
  multicast_read-Reads source_rps ids = at_site_id-Reads b ids _ _ _ refl
  multicast_read-Reads source_site_config ids = at_site_id-Reads b ids _ _ _ refl
  multicast_read-Reads routes ids = read-Reads b _ _ refl refl
  multicast_read-Reads igmp_memberships ids = read-Reads b _ _ refl refl
  multicast_read-Reads config ids = at_ids-Reads b ids _ _ _
  multicast_read-Reads dynamic_rps ids = at_ids-Reads b ids _ _ _
  multicast_read-Reads rps ids = at_ids-Reads b ids _ _ _
  multicast_read-Reads protocol_parameters ids = at_ids-Reads b ids _ _ _
  multicast_read-Reads wan_status ids = at_ids-Reads b ids _ _ _

  ipfix_read-Reads : (operation : Ipfix) (ids : SiteElement) → Reads 1 (ipfix_read b operation ids)
  unfolding ipfix_read is_given get
  ipfix_read-Reads ipfix_config ids = at_ids-Reads b ids _ _ _
  ipfix_read-Reads collectors ids = read-Reads b _ _ refl refl
  ipfix_read-Reads filters ids = read-Reads b _ _ refl refl
  ipfix_read-Reads profiles ids = read-Reads b _ _ refl refl
  ipfix_read-Reads templates ids = read-Reads b _ _ refl refl
  ipfix_read-Reads global_prefixes ids = read-Reads b _ _ refl refl
  ipfix_read-Reads local_prefixes ids = elim (Bool-cases (truthy ids.site_id)) [
    | inl e ↦ rw e (
        read_with-Reads b _ (site_paths ids) none (λ n. (ids.site_id, refl, e)) (not_needed refl) e
          refl)
    | inr e ↦ rw e (read-Reads b _ _ refl refl)
  ]

  service_connection_read-Reads :
      (operation : ServiceConnection) (ids : SiteElement)
      → Reads 1 (service_connection_read b operation ids)
  unfolding service_connection_read
  service_connection_read-Reads tenant_connections ids = read-Reads b _ _ refl refl
  service_connection_read-Reads site_connections ids = at_site_id-Reads b ids _ _ _ refl
  service_connection_read-Reads endpoints ids = read-Reads b _ _ refl refl
  service_connection_read-Reads binding_maps ids = read-Reads b _ _ refl refl
  service_connection_read-Reads service_labels ids = read-Reads b _ _ refl refl
  service_connection_read-Reads tenant_extensions ids = read-Reads b _ _ refl refl
  service_connection_read-Reads site_extensions ids = at_site_id-Reads b ids _ _ _ refl
  service_connection_read-Reads element_extensions ids = at_ids-Reads b ids _ _ _

  connection_status_of-Reads :
      (ids : SiteElement) (object_id : Option Text) → Reads 1 (connection_status_of b ids object_id)
  unfolding connection_status_of given is_given get
  connection_status_of-Reads ids none = no_ids b (λ log. refl)
  connection_status_of-Reads ids (some []) = no_ids b (λ log. refl)
  connection_status_of-Reads ids (some (c ∷ cs)) =
      require-Reads b _ _ _ _ 1
        (λ k. read_with-Reads b _ _ none (λ n. (ids.site_id, refl, k)) (not_needed refl) k refl)

  prisma_access_read-Reads :
      (operation : PrismaAccess) (object_id : Option Text) (ids : SiteElement)
      → Reads 1 (prisma_access_read b operation object_id ids)
  unfolding prisma_access_read
  prisma_access_read-Reads site_config object_id ids = at_site_id-Reads b ids _ _ _ refl
  prisma_access_read-Reads connections object_id ids = at_site_id-Reads b ids _ _ _ refl
  prisma_access_read-Reads adem_site_config object_id ids = at_site_id-Reads b ids _ _ _ refl
  prisma_access_read-Reads adem_status object_id ids = at_site_id-Reads b ids _ _ _ refl
  prisma_access_read-Reads connection_config object_id ids = read-Reads b _ _ refl refl
  prisma_access_read-Reads advertised_prefixes object_id ids = at_ids-Reads b ids _ _ _
  prisma_access_read-Reads reachable_prefixes object_id ids = at_ids-Reads b ids _ _ _
  prisma_access_read-Reads pa_networks object_id ids = read-Reads b _ _ refl refl
  prisma_access_read-Reads integration_status object_id ids = read-Reads b _ _ refl refl
  prisma_access_read-Reads connection_status object_id ids =
      connection_status_of-Reads ids object_id

-- A call of one of the tools with a site and an element adds at most one read of the controller, of
-- get_network_services at most two. A read of an action whose path has the id of a site or of an element
-- has this id with a true value, and no read has such an id without one.
pub domain_tools-HasIds :
    (b : Toolbox) (site element object_id : Option Text) (paging : Paging) (full : Bool)
    → ((o : NetworkService)
        → Adds HasIds 2 (get_network_services b o site element object_id paging))
      × ((o : Multicast) → Adds HasIds 1 (get_multicast b o site element paging))
      × ((o : Ipfix) → Adds HasIds 1 (get_ipfix b o site element paging))
      × ((o : ServiceConnection)
          → Adds HasIds 1 (get_service_connections b o site element paging full))
      × ((o : PrismaAccess) → Adds HasIds 1 (get_prisma_access b o site element object_id paging))
unfolding get_network_services get_multicast get_ipfix get_service_connections get_prisma_access
domain_tools-HasIds b site element object_id paging full = (
  λ o. scoped_tool-Reads b _ _ site element paging _ _ 2 (network_service_read-Reads b o object_id),
  λ o. scoped_tool-Reads b _ _ site element paging _ _ 1 (multicast_read-Reads b o),
  λ o. scoped_tool-Reads b _ _ site element paging _ _ 1 (ipfix_read-Reads b o),
  λ o. scoped_tool-Reads b _ _ site element paging _ _ 1 (service_connection_read-Reads b o),
  λ o. scoped_tool-Reads b _ _ site element paging _ _ 1 (prisma_access_read-Reads b o object_id),
)
