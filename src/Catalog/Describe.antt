-- ===== src/Catalog/Describe.antt =====
-- catalog.py: the domains, the description of an action and the blocked actions.
use prisma_sdwan_mcp.Prelude.{if◌then◌else◌, length, keep, ℕ, Bool, List, [], ◌∷◌, map}
use prisma_sdwan_mcp.Prelude.Text.{Text, codes, text_eq}
use prisma_sdwan_mcp.Prelude.Result.{Result, ok, ◌>>=◌}
use prisma_sdwan_mcp.Errors.{RegistryMessage}
use prisma_sdwan_mcp.Value.{Value, bool, str, list, dict, Fields, end, field, of_items}
use prisma_sdwan_mcp.Catalog.{
  ParameterSpec, Source, from_registry, from_curated, ActionSpec, holds, get_action, text_before,
}

-- An entry of `_domains`.
pub record DomainInfo : Type 0 where
  pub domain : Text
  pub title : Value
  pub description : Value

-- What the constructor of the catalog leaves.
pub record Registry : Type 0 where
  pub domains : List DomainInfo
  pub actions : List ActionSpec
  pub expert_blocked_by_default : List Text

source_name : Source → Text
unfolding codes
source_name from_registry = codes "registry"
source_name from_curated = codes "curated"

parameter_value : ParameterSpec → Value
parameter_value p = dict (
    field "name" (str p.name) (
      field "required" (bool p.required)
        (field "type" p.type_ (field "description" p.description (field "default" p.default end)))))

unfoldable pub source_text : ActionSpec → Text
unfolding source_name
source_text a = source_name a.source

-- The object that `describe` returns.
unfoldable pub described : ActionSpec → Fields
unfolding source_name parameter_value
described a = field "action_id" (str a.action_id) (
    field "domain" (str a.domain) (
      field "description" a.description (
        field "http_method" (str a.http_method) (
          field "sdk_call" (str a.sdk_call) (
            field "api_version" a.api_version (
              field "path_parameters" (list (of_items (map parameter_value a.path_parameters))) (
                field "body_schema" a.body_schema (
                  field "output_fields" (list (of_items a.output_fields)) (
                    field "source" (str (source_name a.source))
                      (field "requires_live_test" (bool a.requires_live_test) end))))))))))

-- `describe`
unfoldable pub describe : List ActionSpec → Text → Result RegistryMessage Fields
describe actions action_id = get_action actions action_id >>= λ a. ok (described a)

insert_domain : DomainInfo → List DomainInfo → List DomainInfo
unfolding text_before
insert_domain d [] = d ∷ []
insert_domain d (e ∷ es) =
    let later = insert_domain d es in
    if text_before e.domain d.domain then e ∷ later else d ∷ e ∷ es

sort_domains : List DomainInfo → List DomainInfo
unfolding insert_domain
sort_domains [] = []
sort_domains (d ∷ ds) = insert_domain d (sort_domains ds)

-- An entry of what `domains` returns.
pub record DomainCount : Type 0 where
  pub info : DomainInfo
  pub action_total : ℕ

-- `domains`
unfoldable pub domains_of : Registry → List DomainCount
unfolding sort_domains text_eq
domains_of r =
    map
      (λ d. record {
        info = d;
        action_total = length (keep (λ a. text_eq a.domain d.domain) r.actions);
      })
      (sort_domains r.domains)

-- `expert_blocked`
unfoldable pub expert_blocked : Registry → Text → Bool
expert_blocked r action_id = holds action_id r.expert_blocked_by_default
