-- ===== src/Catalog/Files.antt =====
-- catalog.py: `_parameter`, `_action_from_registry`, `_action_from_compat`, `_load` and what is read
-- from the overrides. A file is the value that json or yaml makes of it; `repr` is Python's `str` of a
-- list or an object. An id, an SDK call or a domain's name that is not a text is taken for a TypeError.
pub mod Loaded
use prisma_sdwan_mcp.Prelude.{
  if◌then◌else◌, keep, String, true, false, Option, none, some, List, [], ◌∷◌,
}
use prisma_sdwan_mcp.Prelude.Text.{Text, codes, text_eq, strip}
use prisma_sdwan_mcp.Prelude.Result.{Result, err, ok, ◌>>=◌}
use prisma_sdwan_mcp.Errors.{
  unsupported_kind, unable_to_load, no_domains_list, domain_without_name, Failure, registry,
  unexpected, of_catalog,
}
use prisma_sdwan_mcp.Value.{Value, null, bool, str, dict, Fields, items, get, get_or_null, truthy}
use prisma_sdwan_mcp.Resolver.Records.{list_at, to_text}
use prisma_sdwan_mcp.Tools.{iterate_or_empty}
use prisma_sdwan_mcp.Catalog.{
  ParameterSpec, from_registry, from_curated, ActionSpec, add, validate, upper,
}
use prisma_sdwan_mcp.Catalog.Describe.{DomainInfo}

-- An exception other than RegistryError, by its class.
abbrev pub raise_class : {A : Type 0} → String → Result Failure A
unfolding codes
raise_class name = err (unexpected (codes name))

-- `item.get(key, default)`
unfoldable pub get_or : String → Value → Fields → Value
unfolding get
get_or k default fs = elim (get k fs) [ none ↦ default | some v ↦ v ]

-- `item[key]`, for a text.
unfoldable pub text_entry : String → Fields → Result Failure Text
text_entry k fs = elim (get k fs) [
  | none ↦ raise_class "KeyError"
  | some v ↦ elim v [ str s ↦ ok s | _ ↦ raise_class "TypeError" ]
]

module _ (repr : Value → Text) where
  -- `_parameter`
  unfoldable pub parameter : Fields → ParameterSpec
  unfolding get_or to_text strip truthy get_or_null
  parameter fs = record {
    name = strip (to_text repr (get_or "name" (str []) fs));
    required = truthy (get_or "required" (bool false) fs);
    type_ = get_or_null "type" fs;
    description = get_or_null "description" fs;
    default = get_or_null "default" fs;
  }

  unfoldable pub parameters_from : List Value → Result Failure (List ParameterSpec)
  parameters_from [] = ok []
  parameters_from (dict fs ∷ vs) = do rest ← parameters_from vs; ok (parameter fs ∷ rest)
  parameters_from (v ∷ vs) = raise_class "AttributeError"

  -- `tuple(_parameter(p) for p in item.get(key) or [])`
  unfoldable pub parameters_at : String → Fields → Result Failure (List ParameterSpec)
  unfolding get_or_null
  parameters_at k fs = do vs ← iterate_or_empty (get_or_null k fs); parameters_from vs

  -- `str(item["http_method"]).upper()`
  unfoldable pub method_entry : Fields → Result Failure Text
  unfolding get upper to_text
  method_entry fs = elim (get "http_method" fs) [
    | none ↦ raise_class "KeyError"
    | some v ↦ ok (upper (to_text repr v))
  ]

  -- `_action_from_registry`, whose domain is the one that it stands in.
  unfoldable pub action_from_registry : Text → Fields → Result Failure ActionSpec
  unfolding get_or get_or_null truthy
  action_from_registry domain fs = do
    action_id ← text_entry "action_id" fs
    sdk_call ← text_entry "sdk_call" fs
    http_method ← method_entry fs
    path_parameters ← parameters_at "path_parameters" fs
    query_parameters ← parameters_at "query_parameters" fs
    output_fields ← iterate_or_empty (get_or_null "output_fields" fs)
    ok (record {
      action_id = action_id;
      domain = domain;
      sdk_call = sdk_call;
      http_method = http_method;
      api_version = get_or_null "api_version" fs;
      description = get_or "description" (str []) fs;
      url_template = get_or_null "url_template" fs;
      path_parameters = path_parameters;
      query_parameters = query_parameters;
      body_schema = get_or_null "body_schema" fs;
      output_fields = output_fields;
      source = from_registry;
      requires_live_test = truthy (get_or "requires_live_test" (bool false) fs);
    })

  -- `item.get("domain", "curated")`, for a text.
  unfoldable pub curated_domain_entry : Fields → Result Failure Text
  unfolding get codes
  curated_domain_entry fs = elim (get "domain" fs) [
    | none ↦ ok (codes "curated")
    | some v ↦ elim v [ str s ↦ ok s | _ ↦ raise_class "TypeError" ]
  ]

  -- `_action_from_compat`; what it does not set is None or empty.
  unfoldable pub action_from_compat : Fields → Result Failure ActionSpec
  unfolding get_or get_or_null truthy
  action_from_compat fs = do
    action_id ← text_entry "action_id" fs
    domain ← curated_domain_entry fs
    sdk_call ← text_entry "sdk_call" fs
    http_method ← method_entry fs
    path_parameters ← parameters_at "path_parameters" fs
    output_fields ← iterate_or_empty (get_or_null "output_fields" fs)
    ok (record {
      action_id = action_id;
      domain = domain;
      sdk_call = sdk_call;
      http_method = http_method;
      api_version = get_or_null "api_version" fs;
      description = get_or "description" (str []) fs;
      url_template = null;
      path_parameters = path_parameters;
      query_parameters = [];
      body_schema = get_or_null "body_schema" fs;
      output_fields = output_fields;
      source = from_curated;
      requires_live_test = truthy (get_or "requires_live_test" (bool true) fs);
    })

-- The loop over the entries of a list of actions.
unfoldable pub add_entries :
    (Fields → Result Failure ActionSpec)
    → List Value
    → List ActionSpec
    → Result Failure (List ActionSpec)
unfolding add
add_entries make [] actions = ok actions
add_entries make (dict fs ∷ vs) actions = do
  a ← make fs
  more ← of_catalog (add actions a)
  add_entries make vs more
add_entries make (v ∷ vs) actions = raise_class "TypeError"

-- `self._domains[name] = info`: an old entry keeps its place.
unfoldable pub put_domain : DomainInfo → List DomainInfo → List DomainInfo
unfolding text_eq
put_domain d [] = d ∷ []
put_domain d (e ∷ es) =
    let later = put_domain d es in if text_eq e.domain d.domain then d ∷ es else e ∷ later

-- `self._domains.setdefault("curated", …)`
unfoldable pub default_domain : DomainInfo → List DomainInfo → List DomainInfo
unfolding text_eq
default_domain d [] = d ∷ []
default_domain d (e ∷ es) =
    let later = default_domain d es in if text_eq e.domain d.domain then e ∷ es else e ∷ later

unfoldable pub curated_domain : DomainInfo
unfolding codes
curated_domain = record {
  domain = codes "curated";
  title = str (codes "Curated Additions");
  description =
      str (codes "Read-only capabilities that fill gaps in the generated registry, added by hand.");
}

-- What the loops have added so far.
pub record Draft : Type 0 where
  pub domains : List DomainInfo
  pub actions : List ActionSpec

unfoldable pub registry_domains : Option Value → Result Failure (List Value)
unfolding list_at
registry_domains none = err (registry unable_to_load)
registry_domains (some (dict fs)) = elim (list_at "domains" fs) [
  | none ↦ err (registry no_domains_list)
  | some vs ↦ ok (items vs)
]
registry_domains (some v) = raise_class "AttributeError"

unfoldable pub checked_draft : Draft → Result Failure Draft
unfolding validate
checked_draft d = of_catalog (validate d.actions) >>= λ done. ok d

module _ (repr : Value → Text) where
  -- One domain of the registry with its name.
  unfoldable pub add_named : Text → Fields → Draft → Result Failure Draft
  unfolding get_or get_or_null codes
  add_named name fs d = do
    entries ← iterate_or_empty (get_or_null "actions" fs)
    actions ← add_entries (action_from_registry repr name) entries d.actions
    ok (record {
      domains =
          put_domain
            (record {
              domain = name;
              title = get_or "title" (str name) fs;
              description = get_or "description" (str []) fs;
            })
            d.domains;
      actions = actions;
    })

  unfoldable pub add_under : Value → Fields → Draft → Result Failure Draft
  add_under (str name) fs d = add_named name fs d
  add_under v fs d = raise_class "TypeError"

  unfoldable pub add_domain : Value → Draft → Result Failure Draft
  unfolding get_or_null truthy
  add_domain (dict fs) d =
      if truthy (get_or_null "domain" fs)
      then add_under (get_or_null "domain" fs) fs d
      else err (registry domain_without_name)
  add_domain v d = raise_class "AttributeError"

  unfoldable pub add_domains : List Value → Draft → Result Failure Draft
  add_domains [] d = ok d
  add_domains (v ∷ vs) d = add_domain v d >>= λ d'. add_domains vs d'

  -- The curated additions, if their file exists.
  unfoldable pub add_curated : Option Value → Draft → Result Failure Draft
  unfolding get_or_null
  add_curated none d = ok d
  add_curated (some (dict fs)) d = do
    entries ← iterate_or_empty (get_or_null "actions" fs)
    actions ← add_entries (action_from_compat repr) entries d.actions
    ok (record { domains = default_domain curated_domain d.domains; actions = actions })
  add_curated (some v) d = raise_class "AttributeError"

  -- `_load`, of the registry if it can be read, and of the curated additions if there are any.
  unfoldable pub load_files : Option Value → Option Value → Result Failure Draft
  load_files registry_file curated_file = registry_domains registry_file >>= λ vs.
      add_domains vs (record { domains = []; actions = [] }) >>= λ d.
      add_curated curated_file d >>= λ d'. checked_draft d'

-- `resource_alias`, of the overrides.
unfoldable pub resource_alias : Value → Text → String → Result Failure Value
unfolding get_or_null truthy get
resource_alias overrides kind_text kind = elim overrides [
  | dict fs ↦
      if truthy (get_or_null "resource_aliases" fs)
      then elim (get_or_null "resource_aliases" fs) [
        | dict aliases ↦ elim (get kind aliases) [
          | some v ↦ ok v
          | none ↦ err (registry (unsupported_kind kind_text))
        ]
        | _ ↦ raise_class "TypeError"
      ]
      else err (registry (unsupported_kind kind_text))
  | _ ↦ raise_class "AttributeError"
]

-- `actions`
unfoldable pub actions_of : List ActionSpec → Option Text → List ActionSpec
unfolding text_eq
actions_of actions none = actions
actions_of actions (some domain) = keep (λ a. text_eq a.domain domain) actions
