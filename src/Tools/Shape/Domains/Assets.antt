-- ===== src/Tools/Shape/Domains/Assets.antt =====
-- tools/domains.py: the cellular, software, identity and platform operations refuse in the name of their tool.
use prisma_sdwan_mcp.Prelude.{Option-cases, inl, inr, Option, none, some}
use prisma_sdwan_mcp.Prelude.Text.{Text, codes, strip}
use prisma_sdwan_mcp.Resolver.{given}
use prisma_sdwan_mcp.Tools.{Toolbox}
use prisma_sdwan_mcp.Tools.Domains.Assets.{
  Cellular, modules, module_images, apn_profiles, firmware_status, machine_modules, Software,
  element_state, element_status, machine_upgrade, upgrade_status, site_templates,
  template_deployments, Identity, directory_service, directory_status, directory_users,
  directory_groups, active_user_ips, tenant_users, element_users, element_user_access, Platform,
  tenant, licenses, skus, machines, machine_system_status, machine_software, reports, external_ca,
  otp_access, hub_service_endpoints, cellular_read, software_read, element_user_access_of,
  identity_read, platform_read,
}
use prisma_sdwan_mcp.Tools.Shape.Domains.{
  Refuses, invalid-Refuses, read_with-Refuses, named-Refuses,
}

module _ (b : Toolbox) where
  pub cellular_read-Refuses :
      (operation : Cellular) (element machine : Option Text)
      → Refuses (codes "get_cellular") (cellular_read b operation element machine)
  unfolding cellular_read
  cellular_read-Refuses module_images element machine =
      read_with-Refuses b (codes "get_cellular") _ _ _
  cellular_read-Refuses apn_profiles element machine =
      read_with-Refuses b (codes "get_cellular") _ _ _
  cellular_read-Refuses firmware_status element machine =
      read_with-Refuses b (codes "get_cellular") _ _ _
  cellular_read-Refuses machine_modules element machine =
      named-Refuses b (codes "get_cellular") _ _ _ _ _
  cellular_read-Refuses modules element machine = named-Refuses b (codes "get_cellular") _ _ _ _ _

  pub software_read-Refuses :
      (operation : Software) (element : Option Text)
      → Refuses (codes "get_software") (software_read b operation element)
  unfolding software_read
  software_read-Refuses element_state element = named-Refuses b (codes "get_software") _ _ _ _ _
  software_read-Refuses element_status element = named-Refuses b (codes "get_software") _ _ _ _ _
  software_read-Refuses machine_upgrade element = read_with-Refuses b (codes "get_software") _ _ _
  software_read-Refuses upgrade_status element = read_with-Refuses b (codes "get_software") _ _ _
  software_read-Refuses site_templates element = read_with-Refuses b (codes "get_software") _ _ _
  software_read-Refuses template_deployments element =
      read_with-Refuses b (codes "get_software") _ _ _

  element_user_access_of-Refuses :
      (object_id : Option Text)
      → Refuses (codes "get_identity") (element_user_access_of b object_id)
  unfolding element_user_access_of
  element_user_access_of-Refuses object_id =
      elim (Option-cases (
        given (elim (given object_id) as (λ x. Option Text) [
          | none ↦ none
          | some s ↦ some (strip s)
        ]))) [
          | inl e ↦ rw (element_user_access_of, e) (invalid-Refuses b (codes "get_identity") _)
          | inr (id, e) ↦
              rw (element_user_access_of, e) (read_with-Refuses b (codes "get_identity") _ _ _)
        ]

  pub identity_read-Refuses :
      (operation : Identity) (object_id : Option Text)
      → Refuses (codes "get_identity") (identity_read b operation object_id)
  unfolding identity_read
  identity_read-Refuses directory_service object_id =
      read_with-Refuses b (codes "get_identity") _ _ _
  identity_read-Refuses directory_status object_id =
      read_with-Refuses b (codes "get_identity") _ _ _
  identity_read-Refuses directory_users object_id = read_with-Refuses b (codes "get_identity") _ _ _
  identity_read-Refuses directory_groups object_id =
      read_with-Refuses b (codes "get_identity") _ _ _
  identity_read-Refuses active_user_ips object_id = read_with-Refuses b (codes "get_identity") _ _ _
  identity_read-Refuses tenant_users object_id = read_with-Refuses b (codes "get_identity") _ _ _
  identity_read-Refuses element_users object_id = read_with-Refuses b (codes "get_identity") _ _ _
  identity_read-Refuses element_user_access object_id = element_user_access_of-Refuses object_id

  pub platform_read-Refuses :
      (operation : Platform) (machine folder : Option Text)
      → Refuses (codes "get_platform") (platform_read b operation machine folder)
  unfolding platform_read
  platform_read-Refuses tenant machine folder = read_with-Refuses b (codes "get_platform") _ _ _
  platform_read-Refuses licenses machine folder = read_with-Refuses b (codes "get_platform") _ _ _
  platform_read-Refuses skus machine folder = read_with-Refuses b (codes "get_platform") _ _ _
  platform_read-Refuses machines machine folder = read_with-Refuses b (codes "get_platform") _ _ _
  platform_read-Refuses external_ca machine folder =
      read_with-Refuses b (codes "get_platform") _ _ _
  platform_read-Refuses otp_access machine folder = read_with-Refuses b (codes "get_platform") _ _ _
  platform_read-Refuses hub_service_endpoints machine folder =
      read_with-Refuses b (codes "get_platform") _ _ _
  platform_read-Refuses machine_system_status machine folder =
      named-Refuses b (codes "get_platform") _ _ _ _ _
  platform_read-Refuses machine_software machine folder =
      named-Refuses b (codes "get_platform") _ _ _ _ _
  platform_read-Refuses reports machine folder = elim (Option-cases (given folder)) [
    | inl e ↦ rw (platform_read, e) (read_with-Refuses b (codes "get_platform") _ _ _)
    | inr (f, e) ↦ rw (platform_read, e) (invalid-Refuses b (codes "get_platform") _)
  ]
