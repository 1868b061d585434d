-- ===== src/Tools/Domains/Assets.antt =====
-- tools/domains.py: `get_cellular`, `get_software`, `get_identity` and `get_platform`.
use prisma_sdwan_mcp.Prelude.{String, Bool, Option, none, some}
use prisma_sdwan_mcp.Prelude.Text.{Text, codes, strip}
use prisma_sdwan_mcp.Value.{str, Fields, end, field}
use prisma_sdwan_mcp.Resolver.{given}
use prisma_sdwan_mcp.Tools.{Log, Toolbox, Step, return}
use prisma_sdwan_mcp.Tools.Replies.{Paging, invalid_argument}
use prisma_sdwan_mcp.Tools.Domains.{Answer, refused, read_with, read, query, plain_tool, named}

-- `CellularOperation`
pub data Cellular : Type 0 where
  modules module_images apn_profiles firmware_status machine_modules : Cellular

unfoldable pub cellular_name : Cellular → String
cellular_name modules = "modules"
cellular_name module_images = "module_images"
cellular_name apn_profiles = "apn_profiles"
cellular_name firmware_status = "firmware_status"
cellular_name machine_modules = "machine_modules"

-- `SoftwareOperation`
pub data Software : Type 0 where
  element_state element_status machine_upgrade : Software
  upgrade_status site_templates template_deployments : Software

unfoldable pub software_name : Software → String
software_name element_state = "element_state"
software_name element_status = "element_status"
software_name machine_upgrade = "machine_upgrade"
software_name upgrade_status = "upgrade_status"
software_name site_templates = "site_templates"
software_name template_deployments = "template_deployments"

-- `IdentityOperation`
pub data Identity : Type 0 where
  directory_service directory_status directory_users directory_groups : Identity
  active_user_ips tenant_users element_users element_user_access : Identity

unfoldable pub identity_name : Identity → String
identity_name directory_service = "directory_service"
identity_name directory_status = "directory_status"
identity_name directory_users = "directory_users"
identity_name directory_groups = "directory_groups"
identity_name active_user_ips = "active_user_ips"
identity_name tenant_users = "tenant_users"
identity_name element_users = "element_users"
identity_name element_user_access = "element_user_access"

-- `PlatformOperation`
pub data Platform : Type 0 where
  tenant licenses skus machines machine_system_status machine_software : Platform
  reports external_ca otp_access hub_service_endpoints : Platform

unfoldable pub platform_name : Platform → String
platform_name tenant = "tenant"
platform_name licenses = "licenses"
platform_name skus = "skus"
platform_name machines = "machines"
platform_name machine_system_status = "machine_system_status"
platform_name machine_software = "machine_software"
platform_name reports = "reports"
platform_name external_ca = "external_ca"
platform_name otp_access = "otp_access"
platform_name hub_service_endpoints = "hub_service_endpoints"

module _ (b : Toolbox) where
  unfoldable pub cellular_read : Cellular → Option Text → Option Text → Step Answer
  unfolding codes
  cellular_read module_images element machine = read b "cellular.cellular_module_images"
  cellular_read apn_profiles element machine = read b "cellular.apnprofiles"
  cellular_read firmware_status element machine =
      query b "cellular.cellular_module_firmware_status_query" end
  cellular_read machine_modules element machine =
      named b "machine" "machine_id" "machine is required" machine (codes "get_cellular")
        "platform_specialized.machine_cellular_modules"
  cellular_read modules element machine =
      named b "element" "element_id" "element is required" element (codes "get_cellular")
        "cellular.element_cellular_modules"

  unfoldable pub get_cellular :
      Cellular → Option Text → Option Text → Paging → Bool → Log → Fields × Log
  unfolding codes
  get_cellular operation element machine paging full =
      plain_tool b (codes "get_cellular") (codes (cellular_name operation)) paging full
        (cellular_read operation element machine)

  unfoldable pub software_read : Software → Option Text → Step Answer
  unfolding codes
  software_read element_state element =
      named b "element" "element_id" "element is required" element (codes "get_software")
        "software_upgrades.software_state"
  software_read element_status element =
      named b "element" "element_id" "element is required" element (codes "get_software")
        "software_upgrades.software_status"
  software_read machine_upgrade element = query b "software_upgrades.machine_upgrade_query" end
  software_read upgrade_status element = query b "software_upgrades.upgrade_status_query" end
  software_read site_templates element =
      query b "software_upgrades.bulkconfigurations_sitetemplates_query" end
  software_read template_deployments element =
      query b "software_upgrades.bulkconfigurations_sitetemplates_deployments_query" end

  unfoldable pub get_software : Software → Option Text → Paging → Bool → Log → Fields × Log
  unfolding codes
  get_software operation element paging full =
      plain_tool b (codes "get_software") (codes (software_name operation)) paging full
        (software_read operation element)

  -- The access of the element user whose id is given.
  unfoldable pub element_user_access_of : Option Text → Step Answer
  unfolding given strip codes
  element_user_access_of object_id =
      elim (given (elim (given object_id) [ none ↦ none | some s ↦ some (strip s) ])) [
        | none ↦ return (
            refused
              (invalid_argument "object_id (element user ID) is required" (codes "get_identity")))
        | some id ↦
            read_with b "users_identity.elementusers_access" (field "elementuser_id" (str id) end)
              none
      ]

  unfoldable pub identity_read : Identity → Option Text → Step Answer
  unfolding element_user_access_of
  identity_read directory_service object_id = read b "users_identity.directoryservices"
  identity_read directory_status object_id = read b "users_identity.directoryservices_status"
  identity_read directory_users object_id = read b "users_identity.directoryusers"
  identity_read directory_groups object_id = read b "users_identity.directoryusergroups"
  identity_read active_user_ips object_id = query b "users_identity.activeuserips_query" end
  identity_read tenant_users object_id = read b "users_identity.users"
  identity_read element_users object_id = read b "users_identity.elementusers"
  identity_read element_user_access object_id = element_user_access_of object_id

  unfoldable pub get_identity : Identity → Option Text → Paging → Bool → Log → Fields × Log
  unfolding codes
  get_identity operation object_id paging full =
      plain_tool b (codes "get_identity") (codes (identity_name operation)) paging full
        (identity_read operation object_id)

  unfoldable pub folder_refused : String
  folder_refused =
      "folder filtering is not supported by this endpoint: every value returns zero items, including a folder path copied verbatim from an unfiltered result. Call reports without 'folder' and select from the returned path/type fields"

  unfoldable pub platform_read : Platform → Option Text → Option Text → Step Answer
  unfolding given folder_refused codes
  platform_read tenant machine folder = read b "platform_specialized.tenants"
  platform_read licenses machine folder = read b "platform_specialized.licenses"
  platform_read skus machine folder = read b "platform_specialized.skus"
  platform_read machines machine folder = read b "platform_specialized.machines"
  platform_read external_ca machine folder = read b "platform_specialized.externalcaconfigs"
  platform_read otp_access machine folder = read b "platform_specialized.otpaccessconfigs"
  platform_read hub_service_endpoints machine folder =
      read b "platform_specialized.tenant_hubserviceendpoints"
  platform_read machine_system_status machine folder =
      named b "machine" "machine_id" "machine is required" machine (codes "get_platform")
        "platform_specialized.machinesystemstatus"
  platform_read machine_software machine folder =
      named b "machine" "machine_id" "machine is required" machine (codes "get_platform")
        "platform_specialized.software"
  platform_read reports machine folder = elim (given folder) [
    | some f ↦ return (refused (invalid_argument folder_refused (codes "get_platform")))
    | none ↦ query b "platform_specialized.reportsdir_query" end
  ]

  unfoldable pub get_platform :
      Platform → Option Text → Option Text → Paging → Bool → Log → Fields × Log
  unfolding codes
  get_platform operation machine folder paging full =
      plain_tool b (codes "get_platform") (codes (platform_name operation)) paging full
        (platform_read operation machine folder)
