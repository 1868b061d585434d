-- ===== src/Tools/Routing/Diagnostics.antt =====
-- tools/routing_diagnostics.py: `get_device_diagnostics`.
use prisma_sdwan_mcp.Prelude.{length, String, false, Option, none, some, ◌++◌, map}
use prisma_sdwan_mcp.Prelude.Text.{Text, codes}
use prisma_sdwan_mcp.Value.{Value, str, dict, Fields, field, truthy}
use prisma_sdwan_mcp.Resolver.Records.{records, decimal}
use prisma_sdwan_mcp.Resolver.{SiteElement}
use prisma_sdwan_mcp.Tools.{Log, Toolbox, Step, return, ◌>>=◌, ids_of, try_tool}
use prisma_sdwan_mcp.Tools.Replies.{Paging, quoted, listing, unless_failed}
use prisma_sdwan_mcp.Tools.Domains.{
  Answer, refused, answered, element_paths, id_paths, read_with, require, at_site_id,
}

abbrev pub tool : Text
tool = codes "get_device_diagnostics"

-- `DiagnosticOperation`
pub data Diagnostic : Type 0 where
  lldp_neighbors mac_table port_to_vlan vlan_to_port bfd_peers application_probe : Diagnostic

unfoldable pub diagnostic_name : Diagnostic → String
diagnostic_name lldp_neighbors = "lldp_neighbors"
diagnostic_name mac_table = "mac_table"
diagnostic_name port_to_vlan = "port_to_vlan"
diagnostic_name vlan_to_port = "vlan_to_port"
diagnostic_name bfd_peers = "bfd_peers"
diagnostic_name application_probe = "application_probe"

module _ (b : Toolbox) where
  -- The read of an operation of an element whose id is known.
  unfoldable pub diagnostic_read : Diagnostic → SiteElement → Step Answer
  diagnostic_read lldp_neighbors ids =
      read_with b "device_diagnostics.lldp_neighbors_status" (element_paths ids) none
  diagnostic_read mac_table ids =
      read_with b "device_diagnostics.mac_addresses_status" (element_paths ids) none
  diagnostic_read bfd_peers ids =
      at_site_id b ids "site could not be inferred for BFD lookup" tool
        "device_diagnostics.bfdpeers"
  diagnostic_read port_to_vlan ids =
      require b (truthy ids.site_id) "site could not be inferred for this diagnostic" tool
        (read_with b "device_diagnostics.port_vlan_members" (id_paths ids) none)
  diagnostic_read vlan_to_port ids =
      require b (truthy ids.site_id) "site could not be inferred for this diagnostic" tool
        (read_with b "device_diagnostics.vlan_port_members" (id_paths ids) none)
  diagnostic_read application_probe ids =
      require b (truthy ids.site_id) "site could not be inferred for this diagnostic" tool
        (read_with b "device_diagnostics.application_probe" (id_paths ids) none)

  unfoldable pub diagnostic_items : Diagnostic → SiteElement → Paging → Value → Step Fields
  unfolding codes decimal quoted
  diagnostic_items operation ids paging data_ = unless_failed b tool data_ (
      listing b tool
        (codes "Diagnostic "
          ++ (quoted (codes (diagnostic_name operation))
              ++ (codes " returned " ++ (decimal (length (records data_)) ++ codes " item(s)"))))
        "items" paging (field "operation" (str (codes (diagnostic_name operation))) (id_paths ids))
        none false (map dict (records data_)))

  unfoldable pub diagnostic_reply : Diagnostic → SiteElement → Paging → Answer → Step Fields
  unfolding diagnostic_items
  diagnostic_reply operation ids paging (refused reply) = return reply
  diagnostic_reply operation ids paging (answered data_) =
      diagnostic_items operation ids paging data_

  unfoldable pub get_device_diagnostics :
      Diagnostic → Text → Option Text → Paging → Log → Fields × Log
  unfolding diagnostic_reply
  get_device_diagnostics operation element site paging = try_tool b tool (do
    ids ← ids_of b site (some element)
    answer ←
        require b (truthy ids.element_id) "element is required" tool (diagnostic_read operation ids)
    diagnostic_reply operation ids paging answer)
