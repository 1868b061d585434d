-- ===== src/Tools/Policies.antt =====
-- tools/policies_security.py: `POLICY_MAP` and `get_policies`.
pub mod Security
pub mod Collected
pub mod Families
use prisma_sdwan_mcp.Prelude.{
  if◌then◌else◌, length, is_empty, String, false, Option, none, some, List, [], ◌∷◌, ◌++◌, map,
}
use prisma_sdwan_mcp.Prelude.Text.{Text, codes, strip}
use prisma_sdwan_mcp.Value.{
  Value, null, str, dict, Fields, end, field, get, get_or_null, set, truthy,
}
use prisma_sdwan_mcp.Resolver.Records.{records, decimal}
use prisma_sdwan_mcp.Resolver.{given}
use prisma_sdwan_mcp.Response.{structured_error}
use prisma_sdwan_mcp.Response.Envelope.{count}
use prisma_sdwan_mcp.Tools.{Log, Toolbox, Step, return, ◌>>=◌, execute, resolve, try_tool}
use prisma_sdwan_mcp.Tools.Replies.{
  Paging, refusal, invalid_argument, quoted, listing, single, unless_failed,
}

abbrev pub tool : Text
tool = codes "get_policies"

-- A family of `POLICY_MAP`.
pub data Family : Type 0 where
  network priority nat security performance : Family

abbrev pub families : List Family
families = network ∷ priority ∷ nat ∷ security ∷ performance ∷ []

unfoldable pub family_name : Family → String
family_name network = "network"
family_name priority = "priority"
family_name nat = "nat"
family_name security = "security"
family_name performance = "performance"

unfoldable pub resolver_kind : Family → String
resolver_kind network = "network_policy"
resolver_kind priority = "priority_policy"
resolver_kind nat = "nat_policy"
resolver_kind security = "security_policy"
resolver_kind performance = "performance_policy"

-- `PolicyOperation`, the two that list and the two that are about one policy.
pub data Collection : Type 0 where
  sets stacks : Collection

pub data Detail : Type 0 where
  rules status : Detail

pub data Operation : Type 0 where
  collection : Collection → Operation
  policy_detail : Detail → Operation

unfoldable pub collection_name : Collection → String
collection_name sets = "sets"
collection_name stacks = "stacks"

unfoldable pub detail_name : Detail → String
detail_name rules = "rules"
detail_name status = "status"

unfoldable pub collection_action : Family → Collection → String
collection_action network sets = "network_priority_policies.networkpolicysets"
collection_action network stacks = "network_priority_policies.networkpolicysetstacks"
collection_action priority sets = "network_priority_policies.prioritypolicysets"
collection_action priority stacks = "network_priority_policies.prioritypolicysetstacks"
collection_action nat sets = "nat_policies.natpolicysets"
collection_action nat stacks = "nat_policies.natpolicysetstacks"
collection_action security sets = "security_policies.ngfwsecuritypolicysets"
collection_action security stacks = "security_policies.ngfwsecuritypolicysetstacks"
collection_action performance sets = "performance_management.perfmgmtpolicysets"
collection_action performance stacks = "performance_management.perfmgmtpolicysetstacks"

-- The security family has no status.
unfoldable pub detail_action : Family → Detail → Option String
detail_action network rules = some "network_priority_policies.networkpolicyrules"
detail_action network status = some "network_priority_policies.networkpolicysets_status"
detail_action priority rules = some "network_priority_policies.prioritypolicyrules"
detail_action priority status = some "network_priority_policies.prioritypolicysets_status"
detail_action nat rules = some "nat_policies.natpolicyrules"
detail_action nat status = some "nat_policies.natpolicysets_status"
detail_action security rules = some "security_policies.ngfwsecuritypolicyrules"
detail_action security status = none
detail_action performance rules =
    some "performance_management.perfmgmtpolicysets_perfmgmtpolicyrules"
detail_action performance status = some "performance_management.perfmgmtpolicysets_status"

unfoldable pub id_param : Family → String
id_param network = "networkpolicyset_id"
id_param priority = "prioritypolicyset_id"
id_param nat = "natpolicyset_id"
id_param security = "ngfwsecuritypolicyset_id"
id_param performance = "perfmgmtpolicyset_id"

-- `{**item, "policy_family": family}`
unfoldable pub with_family : Family → Fields → Fields
unfolding codes
with_family f item = set "policy_family" (str (codes (family_name f))) item

-- What the loop over the families has collected.
pub record Scan : Type 0 where
  pub combined : List Fields
  pub family_errors : Fields

-- One family's answer: its error, or its records.
unfoldable pub add_family : Family → Value → Scan → Scan
add_family f result scan =
    let listed : Scan = record {
      combined = scan.combined ++ map (with_family f) (records result);
      family_errors = scan.family_errors;
    } in
    elim result [
      | dict fs ↦ elim (get "error" fs) [
        | some error ↦ record {
          combined = scan.combined;
          family_errors = set (family_name f) error scan.family_errors;
        }
        | none ↦ listed
      ]
      | _ ↦ listed
    ]

module _ (b : Toolbox) where
  unfoldable pub scan_families : Collection → List Family → Scan → Step Scan
  scan_families operation [] scan = return scan
  scan_families operation (f ∷ fs) scan =
      execute b (collection_action f operation) end none >>= λ result.
      scan_families operation fs (add_family f result scan)

  unfoldable pub all_reply : Collection → Paging → Scan → Step Fields
  unfolding codes decimal truthy
  all_reply operation paging scan =
      listing b tool
        (codes "All policy "
          ++ (codes (collection_name operation)
              ++ (codes ": "
                  ++ (decimal (length scan.combined) ++ codes " item(s) across 5 families"))))
        "items" paging
        (field "family" (str (codes "all")) (
          field "operation" (str (codes (collection_name operation))) (
            field "family_errors"
              (if truthy (dict scan.family_errors) then dict scan.family_errors else null) end)))
        none false (map dict scan.combined)

  -- `family="all"`
  unfoldable pub all_policies : Operation → Paging → Step Fields
  unfolding all_reply
  all_policies (policy_detail d) paging =
      return (invalid_argument "family='all' supports only sets or stacks" tool)
  all_policies (collection c) paging = do
    scan ← scan_families c families (record { combined = []; family_errors = end })
    all_reply c paging scan

  unfoldable pub family_items : Family → Collection → Paging → Step Fields
  unfolding codes decimal
  family_items f operation paging = do
    data_ ← execute b (collection_action f operation) end none
    unless_failed b tool data_ (
        listing b tool
          (codes (family_name f)
            ++ (codes " policy "
                ++ (codes (collection_name operation)
                    ++ (codes ": " ++ (decimal (length (records data_)) ++ codes " item(s)")))))
          "items" paging
          (field "family" (str (codes (family_name f)))
            (field "operation" (str (codes (collection_name operation))) end))
          none false (map dict (records data_)))

  unfoldable pub reply_detail : Family → Detail → Text → Fields → Paging → Value → Step Fields
  unfolding codes quoted
  reply_detail f status policy record_ paging data_ =
      single b tool (codes (family_name f) ++ (codes " policy status for " ++ quoted policy))
        "status" data_ (field "policy" (dict record_) end)
  reply_detail f rules policy record_ paging data_ =
      listing b tool (codes (family_name f) ++ (codes " policy rules for " ++ quoted policy))
        "rules" paging (field "policy" (dict record_) end) none false (map dict (records data_))

  unfoldable pub read_detail : Family → Detail → String → Text → Paging → Fields → Step Fields
  unfolding reply_detail truthy
  read_detail f d action policy paging record_ =
      if truthy (get_or_null "id" record_)
      then (do
        data_ ← execute b action (field (id_param f) (get_or_null "id" record_) end) none
        unless_failed b tool data_ (reply_detail f d policy record_ paging data_))
      else return (refusal "unresolved_relationship" "resolved policy has no id" tool 409)

  unfoldable pub no_detail : Family → Detail → Fields
  unfolding structured_error codes
  no_detail f d =
      structured_error (codes "unsupported_operation")
        (codes (detail_name d)
          ++ (codes " is not available for "
              ++ (codes (family_name f) ++ codes " policies in the registry")))
        tool (count 400) end

  unfoldable pub policy_reply : Family → Detail → Option Text → Paging → Step Fields
  unfolding read_detail no_detail given strip
  policy_reply f d policy paging = elim (given policy) [
    | none ↦ return (invalid_argument "policy name or ID is required for rules/status" tool)
    | some name ↦
        if is_empty (strip name)
        then return (invalid_argument "policy name or ID is required for rules/status" tool)
        else elim (detail_action f d) [
          | none ↦ return (no_detail f d)
          | some action ↦ do
            record_ ← resolve b (resolver_kind f) name
            read_detail f d action name paging record_
        ]
  ]

  unfoldable pub family_reply : Family → Operation → Option Text → Paging → Step Fields
  unfolding family_items policy_reply
  family_reply f (collection c) policy paging = family_items f c paging
  family_reply f (policy_detail d) policy paging = policy_reply f d policy paging

  -- Without a family all are asked for.
  unfoldable pub get_policies :
      Option Family → Operation → Option Text → Paging → Log → Fields × Log
  unfolding family_reply
  get_policies none operation policy paging = try_tool b tool (all_policies operation paging)
  get_policies (some f) operation policy paging =
      try_tool b tool (family_reply f operation policy paging)
