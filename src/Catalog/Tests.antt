-- ===== src/Catalog/Tests.antt =====
-- A catalog of two actions, and its theorems at it.
use prisma_sdwan_mcp.Prelude.{String, ◌≡◌, refl, Bool, true, false, some, List, [], ◌∷◌}
use prisma_sdwan_mcp.Prelude.Result.{ok}
use prisma_sdwan_mcp.Value.{
  Value, null, bool, str, list, dict, Fields, end, field, of_items, get, get_or_null, truthy,
}
use prisma_sdwan_mcp.Resolver.Records.{list_at, to_text}
use prisma_sdwan_mcp.Catalog.Files.{
  get_or, text_entry, parameter, parameters_from, parameters_at, method_entry, action_from_registry,
  curated_domain_entry, action_from_compat, add_entries, put_domain, default_domain, curated_domain,
  Draft, registry_domains, checked_draft, add_named, add_under, add_domain, add_domains,
  add_curated, load_files,
}
use prisma_sdwan_mcp.Catalog.Files.Loaded.{IsLoaded, load_files-IsLoaded}
use prisma_sdwan_mcp.Prelude.Text.{codes, text_eq, starts_with, contains, strip}
use prisma_sdwan_mcp.Catalog.{
  ParameterSpec, Source, from_registry, from_curated, ActionSpec, has_action_id, has_action, add,
  add_all, holds, repeats, check_action, validate, load, text_before, insert_action, sort_actions,
  upper, is_listed, list_actions,
}
use prisma_sdwan_mcp.Catalog.Unique.{IsCatalog, load-IsCatalog}
use prisma_sdwan_mcp.Catalog.Listing.{IsListing, list_actions-IsListing}
use prisma_sdwan_mcp.Tools.{iterate, iterate_or_empty}

catalog : Unit {0}
unfolding load add_all add has_action has_action_id validate check_action holds repeats contains
    starts_with text_eq codes list_actions is_listed sort_actions insert_action text_before upper
catalog = tt

abbrev pub site_id_parameter : ParameterSpec
site_id_parameter = record {
  name = codes "site_id";
  required = true;
  type_ = null;
  description = null;
  default = null;
}

abbrev pub action_of : String → Source → ActionSpec
action_of name source = record {
  action_id = codes name;
  domain = codes "sites";
  sdk_call = codes "elements";
  http_method = codes "GET";
  api_version = null;
  description = null;
  url_template = null;
  path_parameters = site_id_parameter ∷ [];
  query_parameters = [];
  body_schema = null;
  output_fields = [];
  source = source;
  requires_live_test = false;
}

abbrev pub two_actions : List ActionSpec
two_actions = action_of "sites.b" from_registry ∷ action_of "sites.a" from_curated ∷ []

loaded :
    load (action_of "sites.b" from_registry ∷ []) (action_of "sites.a" from_curated ∷ [])
    ≡ ok two_actions
unfolding catalog
loaded = refl

load-IsCatalog_test : IsCatalog two_actions two_actions
load-IsCatalog_test =
    load-IsCatalog (action_of "sites.b" from_registry ∷ []) (action_of "sites.a" from_curated ∷ [])
      two_actions loaded

sorted :
    list_actions (codes "sites" ∷ []) two_actions (codes "sites") (some (codes "get"))
    ≡ ok (action_of "sites.a" from_curated ∷ action_of "sites.b" from_registry ∷ [])
unfolding catalog
sorted = refl

list_actions-IsListing_example :
    (listed : List ActionSpec) × (list_actions
        (codes "sites" ∷ [])
        two_actions
        (codes "sites")
        (some (codes "get"))
      ≡ ok listed)
    × IsListing two_actions (codes "sites") (some (codes "get")) listed
unfolding catalog
list_actions-IsListing_example =
    list_actions-IsListing (codes "sites" ∷ []) two_actions (codes "sites") (some (codes "get"))
      refl

abbrev raw_action : String → Value
raw_action action_id = dict (
    field "action_id" (str (codes action_id)) (
      field "sdk_call" (str (codes "elements")) (
        field "http_method" (str (codes "get")) (
          field "path_parameters"
            (list (
              of_items (
                dict (field "name" (str (codes " site_id ")) (field "required" (bool true) end))
                ∷ [])))
            end))))

abbrev raw_actions : String → Fields → Fields
raw_actions action_id fs = field "actions" (list (of_items (raw_action action_id ∷ []))) fs

abbrev registry_file : Value
registry_file = dict (
    field "domains"
      (list (
        of_items (dict (field "domain" (str (codes "sites")) (raw_actions "sites.list" end)) ∷ [])))
      end)

abbrev curated_file : Value
curated_file = dict (raw_actions "sites.more" end)

abbrev loaded_action : String → String → Source → Bool → ActionSpec
loaded_action action_id domain source live = record {
  action_id = codes action_id;
  domain = codes domain;
  sdk_call = codes "elements";
  http_method = codes "GET";
  api_version = null;
  description = str [];
  url_template = null;
  path_parameters = site_id_parameter ∷ [];
  query_parameters = [];
  body_schema = null;
  output_fields = [];
  source = source;
  requires_live_test = live;
}

abbrev loaded_draft : Draft
loaded_draft = record {
  domains =
      record { domain = codes "sites"; title = str (codes "sites"); description = str [] }
      ∷ curated_domain
      ∷ [];
  actions =
      loaded_action "sites.list" "sites" from_registry false
      ∷ loaded_action "sites.more" "curated" from_curated true
      ∷ [];
}

files_loaded : load_files (λ v. []) (some registry_file) (some curated_file) ≡ ok loaded_draft
unfolding catalog load_files registry_domains add_domains add_domain add_under add_named add_curated
    add_entries checked_draft action_from_registry action_from_compat text_entry method_entry
    curated_domain_entry parameters_at parameters_from parameter get_or put_domain iterate_or_empty
    iterate default_domain curated_domain get get_or_null truthy to_text list_at strip
files_loaded = refl

load_files-IsLoaded_example : IsLoaded loaded_draft
load_files-IsLoaded_example =
    load_files-IsLoaded (λ v. []) (some registry_file) (some curated_file) loaded_draft files_loaded
