-- ===== src/Catalog.antt =====
-- catalog.py and models.py: the actions that the server may call, in the order in which they were
-- added. An entry of the registry is given as the ActionSpec that is made of it.
pub mod Unique
pub mod Wanted
pub mod Listing
pub mod Describe
pub mod Files
pub mod Tests
use prisma_sdwan_mcp.Prelude.{
  ltb, leb, ◌==◌, if◌then◌else◌, length, any, keep, is_empty, ℕ, ◌-◌, Bool, true, false, not, ◌&&◌,
  ◌||◌, Option, none, some, List, [], ◌∷◌, ◌++◌, map,
}
use prisma_sdwan_mcp.Prelude.Text.{Text, codes, text_eq, contains}
use prisma_sdwan_mcp.Prelude.Result.{Result, err, ok, ◌>>=◌, ◌>>◌}
use prisma_sdwan_mcp.Errors.{
  RegistryMessage, unknown_capability, duplicate_action, invalid_action_id, sdk_call_missing,
  unsupported_method, bad_path_parameter, unknown_domain,
}
use prisma_sdwan_mcp.Value.{Value}

pub record ParameterSpec : Type 0 where
  pub name : Text
  pub required : Bool
  pub type_ : Value
  pub description : Value
  pub default : Value

pub data Source : Type 0 where
  from_registry from_curated : Source

pub record ActionSpec : Type 0 where
  pub action_id : Text
  pub domain : Text
  pub sdk_call : Text
  pub http_method : Text
  pub api_version : Value
  pub description : Value
  pub url_template : Value
  pub path_parameters : List ParameterSpec
  pub query_parameters : List ParameterSpec
  pub body_schema : Value
  pub output_fields : List Value
  pub source : Source
  pub requires_live_test : Bool

unfoldable pub required_path_parameters : ActionSpec → List Text
required_path_parameters a = map (λ p. p.name) (keep (λ p. p.required) a.path_parameters)

unfoldable pub has_action_id : Text → ActionSpec → Bool
unfolding text_eq
has_action_id action_id a = text_eq a.action_id action_id

unfoldable pub has_action : Text → List ActionSpec → Bool
unfolding has_action_id
has_action action_id actions = any (has_action_id action_id) actions

-- `_add`
unfoldable pub add : List ActionSpec → ActionSpec → Result RegistryMessage (List ActionSpec)
unfolding has_action
add actions a =
    if has_action a.action_id actions
    then err (duplicate_action a.action_id)
    else ok (actions ++ a ∷ [])

-- The loops of `_load`, over all entries of the registry and then of the curated additions.
unfoldable pub add_all :
    List ActionSpec → List ActionSpec → Result RegistryMessage (List ActionSpec)
unfolding add
add_all actions [] = ok actions
add_all actions (a ∷ rest) = add actions a >>= λ more. add_all more rest

-- `name in names`, and a name that occurs twice.
unfoldable pub holds : Text → List Text → Bool
unfolding text_eq
holds name names = any (λ n. text_eq n name) names

unfoldable pub repeats : List Text → Bool
unfolding holds
repeats [] = false
repeats (n ∷ ns) = holds n ns || repeats ns

-- The checks of `validate` on one action.
unfoldable pub check_action : ActionSpec → Result RegistryMessage (Unit {0})
unfolding contains text_eq repeats codes
check_action a =
    let names = map (λ p. p.name) a.path_parameters in
    if is_empty a.action_id || not (contains a.action_id (b'.' ∷ []))
    then err (invalid_action_id a.action_id)
    else if is_empty a.sdk_call
    then err (sdk_call_missing a.action_id)
    else if not (text_eq a.http_method (codes "GET") || text_eq a.http_method (codes "POST"))
    then err (unsupported_method a.action_id)
    else if any is_empty names || repeats names
    then err (bad_path_parameter a.action_id)
    else ok tt

unfoldable pub validate : List ActionSpec → Result RegistryMessage (Unit {0})
unfolding check_action
validate [] = ok tt
validate (a ∷ rest) = check_action a >> validate rest

-- What the constructor leaves: the actions, if they were added and are valid.
unfoldable pub load : List ActionSpec → List ActionSpec → Result RegistryMessage (List ActionSpec)
unfolding add_all validate
load registry_actions curated_actions =
    add_all [] (registry_actions ++ curated_actions) >>= λ actions.
    validate actions >>= λ checked. ok actions

-- `get`
unfoldable pub get_action : List ActionSpec → Text → Result RegistryMessage ActionSpec
unfolding text_eq
get_action [] action_id = err (unknown_capability action_id)
get_action (a ∷ rest) action_id =
    let later = get_action rest action_id in if text_eq a.action_id action_id then ok a else later

-- `a < b` for texts.
unfoldable pub text_before : Text → Text → Bool
text_before [] [] = false
text_before [] (d ∷ t) = true
text_before (c ∷ s) [] = false
text_before (c ∷ s) (d ∷ t) = let later = text_before s t in if c == d then later else ltb c d

unfoldable pub insert_action : ActionSpec → List ActionSpec → List ActionSpec
unfolding text_before
insert_action a [] = a ∷ []
insert_action a (b ∷ bs) =
    let later = insert_action a bs in
    if text_before b.action_id a.action_id then b ∷ later else a ∷ b ∷ bs

-- `matches.sort(key=...)`; the ids of a catalog differ, so no two are equal.
unfoldable pub sort_actions : List ActionSpec → List ActionSpec
unfolding insert_action
sort_actions [] = []
sort_actions (a ∷ as_) = insert_action a (sort_actions as_)

-- `str.upper` on ASCII letters.
unfoldable pub upper : Text → Text
upper [] = []
upper (c ∷ s) = (if leb b'a' c && leb c b'z' then c - 32 else c) ∷ upper s

-- The test of `list_actions`; a method that is None or empty is not asked for.
unfoldable pub is_listed : Text → Option Text → ActionSpec → Bool
unfolding text_eq upper
is_listed domain none a = text_eq a.domain domain
is_listed domain (some []) a = text_eq a.domain domain
is_listed domain (some (c ∷ s)) a = text_eq a.domain domain && text_eq a.http_method (upper (c ∷ s))

-- `list_actions`, over the names of the domains; an action stands for its description.
unfoldable pub list_actions :
    List Text → List ActionSpec → Text → Option Text → Result RegistryMessage (List ActionSpec)
unfolding holds is_listed sort_actions
list_actions domains actions domain method =
    if holds domain domains
    then ok (sort_actions (keep (is_listed domain method) actions))
    else err (unknown_domain domain)

unfoldable pub is_registry : ActionSpec → Bool
is_registry a = elim a.source [ from_registry ↦ true | from_curated ↦ false ]

unfoldable pub action_count : List ActionSpec → ℕ
action_count actions = length actions

unfoldable pub registry_action_count : List ActionSpec → ℕ
unfolding is_registry
registry_action_count actions = length (keep is_registry actions)

unfoldable pub compat_action_count : List ActionSpec → ℕ
unfolding is_registry
compat_action_count actions = length (keep (λ a. not (is_registry a)) actions)
