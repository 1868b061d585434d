-- ===== src/Tools/Policies/Security.antt =====
-- tools/policies_security.py: `get_security`.
use prisma_sdwan_mcp.Prelude.{length, String, false, Option, none, some, List, [], ◌∷◌, ◌++◌, map}
use prisma_sdwan_mcp.Prelude.Text.{Text, codes, strip}
use prisma_sdwan_mcp.Value.{Value, str, list, dict, Fields, end, field, items}
use prisma_sdwan_mcp.Resolver.Records.{records, decimal}
use prisma_sdwan_mcp.Resolver.{given}
use prisma_sdwan_mcp.Common.{match_named}
use prisma_sdwan_mcp.Tools.{Log, Toolbox, Step, return, ◌>>=◌, execute, ids_of, try_tool, as_value}
use prisma_sdwan_mcp.Tools.Replies.{
  Paging, invalid_argument, quoted, listing, single, unless_failed,
}
use prisma_sdwan_mcp.Tools.Domains.{Answer, refused, answered, read_with, read, at_site_id, at_ids}

abbrev pub tool : Text
tool = codes "get_security"

-- `SecurityOperation`
pub data Security : Type 0 where
  zones site_zones element_zones applications application_version : Security
  global_prefixes local_prefixes sdwan_apps sdwan_app_status sdwan_app_configs : Security

unfoldable pub security_name : Security → String
security_name zones = "zones"
security_name site_zones = "site_zones"
security_name element_zones = "element_zones"
security_name applications = "applications"
security_name application_version = "application_version"
security_name global_prefixes = "global_prefixes"
security_name local_prefixes = "local_prefixes"
security_name sdwan_apps = "sdwan_apps"
security_name sdwan_app_status = "sdwan_app_status"
security_name sdwan_app_configs = "sdwan_app_configs"

module _ (b : Toolbox) where
  unfoldable pub items_reply : Security → Paging → List Value → Step Fields
  unfolding codes decimal quoted
  items_reply operation paging vs =
      listing b tool
        (codes "Security operation "
          ++ (quoted (codes (security_name operation))
              ++ (codes " returned " ++ (decimal (length vs) ++ codes " item(s)"))))
        "items" paging end none false vs

  unfoldable pub records_reply : Security → Paging → Value → List Fields → Step Fields
  unfolding items_reply codes quoted
  records_reply operation paging data_ (r ∷ rs) = items_reply operation paging (map dict (r ∷ rs))
  records_reply operation paging (list vs) [] = items_reply operation paging (items vs)
  records_reply operation paging data_ [] =
      single b tool (codes "Security operation " ++ quoted (codes (security_name operation)))
        "result" data_ end

  unfoldable pub answer_reply : Security → Paging → Answer → Step Fields
  unfolding records_reply
  answer_reply operation paging (refused reply) = return reply
  answer_reply operation paging (answered data_) =
      unless_failed b tool data_ (records_reply operation paging data_ (records data_))

  -- The application definitions; an error of the controller is not looked for.
  unfoldable pub applications_reply : Option Text → Paging → Step Fields
  unfolding given match_named codes decimal
  applications_reply application paging = do
    data_ ← execute b "security_policies.appdefs" end none
    let items_ : List Fields = elim (given application) [
      | none ↦ records data_
      | some name ↦ match_named b.repr ("display_name" ∷ "name" ∷ []) name (records data_)
    ]
    listing b tool
        (codes "Application definitions: " ++ (decimal (length items_) ++ codes " match(es)"))
        "applications" paging (field "search" (as_value application) end) none false
        (map dict items_)

  unfoldable pub version_reply : Step Fields
  unfolding codes
  version_reply = do
    data_ ← execute b "security_policies.appdefs_version" end none
    unless_failed b tool data_
        (single b tool (codes "Application catalog version") "version" data_ end)

  unfoldable pub sdwan_app : String → Option Text → Step Answer
  unfolding given strip
  sdwan_app action application =
      elim (given (elim (given application) [ none ↦ none | some s ↦ some (strip s) ])) [
        | none ↦ return (
            refused (
              invalid_argument "application must identify an SD-WAN app ID for this operation"
                tool))
        | some id ↦ read_with b action (field "sdwanapp_id" (str id) end) none
      ]

  unfoldable pub site_zones_of : Option Text → Option Text → Step Answer
  site_zones_of site element = do
    ids ← ids_of b site element
    at_site_id b ids "site is required" tool "security_policies.sitesecurityzones"

  unfoldable pub element_zones_of : Option Text → Option Text → Step Answer
  element_zones_of site element = do
    ids ← ids_of b site element
    at_ids b ids "site and element are required" tool "security_policies.elementsecurityzones"

  unfoldable pub answer_then : Security → Paging → Step Answer → Step Fields
  unfolding answer_reply
  answer_then operation paging m = do answer ← m; answer_reply operation paging answer

  unfoldable pub security_reply :
      Security → Option Text → Option Text → Option Text → Paging → Step Fields
  unfolding version_reply sdwan_app site_zones_of element_zones_of answer_then
  security_reply applications site element application paging =
      applications_reply application paging
  security_reply application_version site element application paging = version_reply
  security_reply zones site element application paging =
      answer_then zones paging (read b "security_policies.securityzones")
  security_reply global_prefixes site element application paging =
      answer_then global_prefixes paging
        (read b "security_policies.ngfwsecuritypolicyglobalprefixes")
  security_reply local_prefixes site element application paging =
      answer_then local_prefixes paging (read b "security_policies.ngfwsecuritypolicylocalprefixes")
  security_reply sdwan_apps site element application paging =
      answer_then sdwan_apps paging (read b "security_policies.sdwanapps")
  security_reply sdwan_app_status site element application paging =
      answer_then sdwan_app_status paging
        (sdwan_app "security_policies.sdwanapps_status" application)
  security_reply sdwan_app_configs site element application paging =
      answer_then sdwan_app_configs paging
        (sdwan_app "security_policies.sdwanapps_configs" application)
  security_reply site_zones site element application paging =
      answer_then site_zones paging (site_zones_of site element)
  security_reply element_zones site element application paging =
      answer_then element_zones paging (element_zones_of site element)

  unfoldable pub get_security :
      Security → Option Text → Option Text → Option Text → Paging → Log → Fields × Log
  unfolding security_reply
  get_security operation site element application paging =
      try_tool b tool (security_reply operation site element application paging)
