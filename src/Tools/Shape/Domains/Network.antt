-- ===== src/Tools/Shape/Domains/Network.antt =====
-- tools/domains.py: the network services, multicast and IPFIX refuse in the name of their tool.
use prisma_sdwan_mcp.Prelude.{
  Option-cases, if_kept, inl, inr, Option, none, some, List, [], ◌∷◌, map,
}
use prisma_sdwan_mcp.Prelude.Text.{Text, codes, strip}
use prisma_sdwan_mcp.Value.{list, dict, Fields, end, field, of_items, truthy}
use prisma_sdwan_mcp.Resolver.Records.{records, project}
use prisma_sdwan_mcp.Resolver.{given, SiteElement}
use prisma_sdwan_mcp.Response.Envelope.{count}
use prisma_sdwan_mcp.Response.Shape.{IsError, structured_error-IsError}
use prisma_sdwan_mcp.Tools.{Toolbox, execute}
use prisma_sdwan_mcp.Tools.Domains.{element_paths}
use prisma_sdwan_mcp.Tools.Domains.Network.{
  NetworkService, dns_services, dns_profiles, dns_roles, dhcp_servers, ntp, ntp_status,
  syslog_profiles, syslog_servers, snmp_agents, snmp_traps, tacacs_profiles, tacacs_servers, radius,
  several_ntp, ntp_status_of, only_ntp, find_ntp, network_service_read, Multicast, config,
  dynamic_rps, rps, peer_groups, protocol_parameters, source_rps, source_site_config, wan_status,
  routes, igmp_memberships, at_both, multicast_read, Ipfix, ipfix_config, collectors, filters,
  profiles, templates, global_prefixes, local_prefixes, ipfix_read,
}
use prisma_sdwan_mcp.Tools.Shape.{bind-Yields}
use prisma_sdwan_mcp.Tools.Shape.Domains.{
  IsRefusal, Refuses, refused-Refuses, read_with-Refuses, require-Refuses, at_site_id-Refuses,
  at_element_id-Refuses, at_ids-Refuses,
}

module _ (b : Toolbox) where
  several_ntp-IsError :
      (configs : List Fields) → IsError (codes "get_network_services") (several_ntp b configs)
  unfolding several_ntp
  several_ntp-IsError configs =
      structured_error-IsError (codes "ambiguous_match")
        (codes "object_id is required unless the element has exactly one NTP configuration")
        (codes "get_network_services") (count 409)
        (field "candidates"
          (list (of_items (map (λ x. dict (project ("id" ∷ "name" ∷ []) x)) configs))) end)

  only_ntp-Refuses :
      (ids : SiteElement) (configs : List Fields)
      → Refuses (codes "get_network_services") (only_ntp b ids configs)
  unfolding only_ntp ntp_status_of
  only_ntp-Refuses ids [] =
      refused-Refuses b (codes "get_network_services") _ (several_ntp-IsError [])
  only_ntp-Refuses ids (c ∷ []) = read_with-Refuses b (codes "get_network_services") _ _ _
  only_ntp-Refuses ids (c ∷ d ∷ cs) =
      refused-Refuses b (codes "get_network_services") _ (several_ntp-IsError (c ∷ d ∷ cs))

  find_ntp-Refuses :
      (ids : SiteElement) (object_id : Option Text)
      → Refuses (codes "get_network_services") (find_ntp b ids object_id)
  unfolding find_ntp ntp_status_of
  find_ntp-Refuses ids object_id =
      elim (Option-cases (
        given (elim (given object_id) as (λ x. Option Text) [
          | none ↦ none
          | some s ↦ some (strip s)
        ]))) [
          | inr (ntp_id, e) ↦
              rw (find_ntp, e) (read_with-Refuses b (codes "get_network_services") _ _ _)
          | inl e ↦
              rw (find_ntp, e)
                (bind-Yields (IsRefusal (codes "get_network_services"))
                  (execute b "platform_specialized.ntp" (element_paths ids) none) _
                  (λ data_. only_ntp-Refuses ids (records data_)))
        ]

  pub network_service_read-Refuses :
      (operation : NetworkService) (object_id : Option Text) (ids : SiteElement)
      → Refuses (codes "get_network_services") (network_service_read b operation object_id ids)
  unfolding network_service_read
  network_service_read-Refuses dns_profiles object_id ids =
      read_with-Refuses b (codes "get_network_services") _ _ _
  network_service_read-Refuses dns_roles object_id ids =
      read_with-Refuses b (codes "get_network_services") _ _ _
  network_service_read-Refuses syslog_profiles object_id ids =
      read_with-Refuses b (codes "get_network_services") _ _ _
  network_service_read-Refuses tacacs_profiles object_id ids =
      read_with-Refuses b (codes "get_network_services") _ _ _
  network_service_read-Refuses dns_services object_id ids =
      at_ids-Refuses b (codes "get_network_services") ids _ _
  network_service_read-Refuses syslog_servers object_id ids =
      at_ids-Refuses b (codes "get_network_services") ids _ _
  network_service_read-Refuses snmp_agents object_id ids =
      at_ids-Refuses b (codes "get_network_services") ids _ _
  network_service_read-Refuses snmp_traps object_id ids =
      at_ids-Refuses b (codes "get_network_services") ids _ _
  network_service_read-Refuses tacacs_servers object_id ids =
      at_ids-Refuses b (codes "get_network_services") ids _ _
  network_service_read-Refuses dhcp_servers object_id ids =
      at_site_id-Refuses b (codes "get_network_services") ids _ _
  network_service_read-Refuses ntp object_id ids =
      at_element_id-Refuses b (codes "get_network_services") ids _ _
  network_service_read-Refuses radius object_id ids =
      at_element_id-Refuses b (codes "get_network_services") ids _ _
  network_service_read-Refuses ntp_status object_id ids =
      require-Refuses b (codes "get_network_services") (truthy ids.element_id) _ _
        (find_ntp-Refuses ids object_id)

  pub multicast_read-Refuses :
      (operation : Multicast) (ids : SiteElement)
      → Refuses (codes "get_multicast") (multicast_read b operation ids)
  unfolding multicast_read at_both
  multicast_read-Refuses peer_groups ids = read_with-Refuses b (codes "get_multicast") _ _ _
  multicast_read-Refuses routes ids = read_with-Refuses b (codes "get_multicast") _ _ _
  multicast_read-Refuses igmp_memberships ids = read_with-Refuses b (codes "get_multicast") _ _ _
  multicast_read-Refuses source_rps ids = at_site_id-Refuses b (codes "get_multicast") ids _ _
  multicast_read-Refuses source_site_config ids =
      at_site_id-Refuses b (codes "get_multicast") ids _ _
  multicast_read-Refuses config ids = at_ids-Refuses b (codes "get_multicast") ids _ _
  multicast_read-Refuses dynamic_rps ids = at_ids-Refuses b (codes "get_multicast") ids _ _
  multicast_read-Refuses rps ids = at_ids-Refuses b (codes "get_multicast") ids _ _
  multicast_read-Refuses protocol_parameters ids = at_ids-Refuses b (codes "get_multicast") ids _ _
  multicast_read-Refuses wan_status ids = at_ids-Refuses b (codes "get_multicast") ids _ _

  pub ipfix_read-Refuses :
      (operation : Ipfix) (ids : SiteElement)
      → Refuses (codes "get_ipfix") (ipfix_read b operation ids)
  unfolding ipfix_read
  ipfix_read-Refuses ipfix_config ids = at_ids-Refuses b (codes "get_ipfix") ids _ _
  ipfix_read-Refuses collectors ids = read_with-Refuses b (codes "get_ipfix") _ _ _
  ipfix_read-Refuses filters ids = read_with-Refuses b (codes "get_ipfix") _ _ _
  ipfix_read-Refuses profiles ids = read_with-Refuses b (codes "get_ipfix") _ _ _
  ipfix_read-Refuses templates ids = read_with-Refuses b (codes "get_ipfix") _ _ _
  ipfix_read-Refuses global_prefixes ids = read_with-Refuses b (codes "get_ipfix") _ _ _
  ipfix_read-Refuses local_prefixes ids =
      if_kept (Refuses (codes "get_ipfix")) (truthy ids.site_id) _ _
        (read_with-Refuses b (codes "get_ipfix") _ _ _)
        (read_with-Refuses b (codes "get_ipfix") _ _ _)
