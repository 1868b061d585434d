-- ===== src/Tools/Discovery/Find.antt =====
-- tools/discovery.py: `find_site`, `find_element` and `find_resource`.
use prisma_sdwan_mcp.Prelude.{ltb, length, String, Bool, false, none, List, [], ◌∷◌, ◌++◌, map}
use prisma_sdwan_mcp.Prelude.Text.{Text, codes}
use prisma_sdwan_mcp.Value.{bool, str, dict, Fields, end, field}
use prisma_sdwan_mcp.Resolver.Records.{decimal}
use prisma_sdwan_mcp.Resolver.{Resolution, ambiguous, find}
use prisma_sdwan_mcp.Response.Envelope.{count}
use prisma_sdwan_mcp.Tools.{Log, Toolbox, Step, return, ◌>>=◌, try_tool}
use prisma_sdwan_mcp.Tools.Replies.{Paging, quoted, listing}
use prisma_sdwan_mcp.Tools.Policies.{tool, Family, families, resolver_kind, with_family}

-- `ResourceKind`
pub data ResourceKind : Type 0 where
  machine application security_zone wan_network path_group service_label vrf : ResourceKind
  family_policy : Family → ResourceKind
  any_policy : ResourceKind

unfoldable pub resource_kind_name : ResourceKind → String
resource_kind_name machine = "machine"
resource_kind_name application = "application"
resource_kind_name security_zone = "security_zone"
resource_kind_name wan_network = "wan_network"
resource_kind_name path_group = "path_group"
resource_kind_name service_label = "service_label"
resource_kind_name vrf = "vrf"
resource_kind_name (family_policy f) = resolver_kind f
resource_kind_name any_policy = "policy"

module _ (b : Toolbox) where
  -- `resolver.find`
  unfoldable pub found_by : String → Text → Step Resolution
  found_by kind name log = (find (b.services log) kind name end, log)

  unfoldable pub matches_reply :
      Text → String → String → Text → Paging → Fields → List Fields → Step Fields
  unfolding codes decimal quoted
  matches_reply tool key what name paging extra matches =
      listing b tool
        (codes "Found "
          ++ (decimal (length matches)
              ++ (32 ∷ (codes what ++ (codes " match(es) for " ++ quoted name)))))
        key paging extra none false (map dict matches)

  unfoldable pub match_extra : Bool → List Fields → Fields
  match_extra is_ambiguous matches =
      field "ambiguous" (bool is_ambiguous) (field "match_count" (count (length matches)) end)

  unfoldable pub find_one_kind : String → String → String → Text → Paging → Log → Fields × Log
  unfolding matches_reply match_extra codes
  find_one_kind tool key kind name paging = try_tool b (codes tool) (do
    result ← found_by kind name
    matches_reply (codes tool) key kind name paging (match_extra (ambiguous result) result.matches)
        result.matches)

  unfoldable pub find_site : Text → Paging → Log → Fields × Log
  unfolding find_one_kind
  find_site = find_one_kind "find_site" "sites" "site"

  unfoldable pub find_element : Text → Paging → Log → Fields × Log
  unfolding find_one_kind
  find_element = find_one_kind "find_element" "elements" "element"

  -- The matches of all families, each with its family.
  unfoldable pub find_policies : List Family → Text → Step (List Fields)
  find_policies [] name = return []
  find_policies (f ∷ fs) name = found_by (resolver_kind f) name >>= λ result.
      find_policies fs name >>= λ more. return (map (with_family f) result.matches ++ more)

  unfoldable pub resource_reply : ResourceKind → Text → Paging → Bool → List Fields → Step Fields
  unfolding matches_reply match_extra codes
  resource_reply kind name paging is_ambiguous matches =
      matches_reply (codes "find_resource") "matches" (resource_kind_name kind) name paging
        (field "resource_kind" (str (codes (resource_kind_name kind)))
          (match_extra is_ambiguous matches))
        matches

  unfoldable pub resource_matches : ResourceKind → Text → Paging → Step Fields
  unfolding resource_reply
  resource_matches any_policy name paging = do
    matches ← find_policies families name
    resource_reply any_policy name paging (ltb 1 (length matches)) matches
  resource_matches kind name paging = do
    result ← found_by (resource_kind_name kind) name
    resource_reply kind name paging (ambiguous result) result.matches

  unfoldable pub find_resource : ResourceKind → Text → Paging → Log → Fields × Log
  unfolding resource_matches codes
  find_resource kind name paging =
      try_tool b (codes "find_resource") (resource_matches kind name paging)
