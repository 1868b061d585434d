-- ===== src/Executor/Binding.antt =====
-- executor.py: how a method of the SDK is called: by its signature, or by one call after the other.
use prisma_sdwan_mcp.Prelude.{
  if◌then◌else◌, any, all, keep, is_empty, Bool, true, false, not, ◌&&◌, ◌||◌, Option, none, some,
  List, [], ◌∷◌, ◌++◌, map,
}
use prisma_sdwan_mcp.Value.{Value, dict, Fields, end, field, is_null, truthy}
use prisma_sdwan_mcp.Catalog.{ParameterSpec, ActionSpec, holds, is_registry}
use prisma_sdwan_mcp.Prelude.Text.{Text, codes, text_eq, lower}
use prisma_sdwan_mcp.Executor.Paths.{key_texts, value_at, absent_from}
use prisma_sdwan_mcp.Executor.Body.{is_get}

-- A parameter of a Python function, as `inspect` gives it.
pub data Kind : Type 0 where
  positional_only positional_or_keyword var_positional keyword_only var_keyword : Kind

pub record Param : Type 0 where
  pub name : Text
  pub kind : Kind
  pub has_default : Bool

abbrev pub Kwargs : Type 0
Kwargs = List (Text × Value)

pub record SdkCall : Type 0 where
  pub args : List Value
  pub kwargs : Kwargs

unfoldable pub body_parameter_names : List Text
unfolding codes
body_parameter_names =
    codes "data"
    ∷ codes "body"
    ∷ codes "payload"
    ∷ codes "request"
    ∷ codes "request_body"
    ∷ codes "query"
    ∷ codes "query_body"
    ∷ []

unfoldable pub is_variadic : Param → Bool
is_variadic p = elim p.kind [ var_positional ↦ true | var_keyword ↦ true | _ ↦ false ]

-- What the loop over the parameters has bound so far.
pub record Bound : Type 0 where
  pub kwargs : Kwargs
  pub body_bound : Bool
  pub bound_paths : List Text

unfoldable pub is_post : ActionSpec → Bool
unfolding text_eq codes
is_post action = text_eq action.http_method (codes "POST")

module _ (action : ActionSpec) (paths : Fields) (body : Value) where
  -- `body is not None and (...)`
  unfoldable pub takes_body : Bool → Param → Bool
  unfolding holds body_parameter_names lower is_post
  takes_body body_bound p =
      not (is_null body)
      && (holds (lower p.name) body_parameter_names
          || (is_post action && not body_bound && not p.has_default))

  unfoldable pub bind_other : Param → Bound → Bound
  unfolding takes_body truthy text_eq codes
  bind_other p b =
      if truthy action.api_version && text_eq p.name (codes "api_version")
      then record b { kwargs = b.kwargs ++ (p.name, action.api_version) ∷ [] }
      else if takes_body b.body_bound p
      then record b { kwargs = b.kwargs ++ (p.name, body) ∷ []; body_bound = true }
      else b

  unfoldable pub bind_param : Param → Bound → Bound
  unfolding value_at bind_other
  bind_param p b = elim (value_at p.name paths) [
    | some v ↦ record b {
      kwargs = b.kwargs ++ (p.name, v) ∷ [];
      bound_paths = b.bound_paths ++ p.name ∷ [];
    }
    | none ↦ bind_other p b
  ]

  unfoldable pub bind_params : List Param → Bound → Bound
  unfolding bind_param
  bind_params [] b = b
  bind_params (p ∷ ps) b = bind_params ps (bind_param p b)

  unfoldable pub is_missing : Kwargs → Param → Bool
  unfolding is_variadic holds
  is_missing kwargs p =
      not (is_variadic p) && not p.has_default && not (holds p.name (map (λ e. e.0) kwargs))

  -- The three tests behind the loop.
  unfoldable pub accept_bound : List Param → Bound → Option SdkCall
  unfolding is_missing absent_from key_texts is_post
  accept_bound params b =
      if any (is_missing b.kwargs) params
      then none
      else if not (is_empty (absent_from (key_texts paths) b.bound_paths))
      then none
      else if is_post action && not (is_null body) && not b.body_bound
      then none
      else some (record { args = []; kwargs = b.kwargs })

  -- The parameters without `self`.
  unfoldable pub usable_params : List Param → List Param
  unfolding text_eq codes
  usable_params params = keep (λ p. not (text_eq p.name (codes "self"))) params

  abbrev pub nothing_bound : Bound
  nothing_bound = record { kwargs = []; body_bound = false; bound_paths = [] }

  -- `_signature_call`, of a signature that `inspect` gives or does not.
  unfoldable pub signature_call : Option (List Param) → Option SdkCall
  unfolding usable_params bind_params accept_bound is_variadic
  signature_call none = none
  signature_call (some all_params) =
      let params = usable_params all_params in
      if all is_variadic params
      then none
      else accept_bound params (bind_params params nothing_bound)

  ordered_from : List ParameterSpec → List Value
  unfolding value_at
  ordered_from [] = []
  ordered_from (p ∷ ps) =
      let rest = ordered_from ps in elim (value_at p.name paths) [ some v ↦ v ∷ rest | none ↦ rest ]

  api_kw : Kwargs
  unfolding truthy codes
  api_kw =
      if truthy action.api_version && not (is_registry action)
      then (codes "api_version", action.api_version) ∷ []
      else []

  -- `d[key] = value`, and `{**d, **e}`.
  put : Text → Value → Kwargs → Kwargs
  unfolding text_eq
  put k v [] = (k, v) ∷ []
  put k v ((j, w) ∷ d) = let later = put k v d in if text_eq j k then (j, v) ∷ d else (j, w) ∷ later

  merge : Kwargs → Kwargs → Kwargs
  unfolding put
  merge d [] = d
  merge d ((k, v) ∷ e) = merge (put k v d) e

  as_kwargs : Fields → Kwargs
  unfolding codes
  as_kwargs end = []
  as_kwargs (field k v fs) = (codes k, v) ∷ as_kwargs fs

  -- `body or {}`
  body_or_empty : Value
  unfolding truthy
  body_or_empty = if truthy body then body else dict end

  unfoldable pub candidates : List SdkCall
  unfolding is_get ordered_from api_kw merge as_kwargs put body_or_empty codes
  candidates =
      let ordered = ordered_from action.path_parameters in
      if is_get action
      then record { args = ordered; kwargs = api_kw }
        ∷ record { args = []; kwargs = merge (as_kwargs paths) api_kw }
        ∷ []
      else record { args = body_or_empty ∷ ordered; kwargs = api_kw }
        ∷ record { args = ordered ++ body_or_empty ∷ []; kwargs = api_kw }
        ∷ record {
          args = [];
          kwargs = merge (put (codes "data") body_or_empty (as_kwargs paths)) api_kw;
        }
        ∷ []

  -- `marker` stands for `(repr(args), repr(sorted(kwargs.items())))`.
  unfoldable pub unique_from : (SdkCall → Text) → List Text → List SdkCall → List SdkCall
  unfolding holds
  unique_from marker seen [] = []
  unique_from marker seen (c ∷ cs) = elim (holds (marker c) seen) [
    | true ↦ unique_from marker seen cs
    | false ↦ c ∷ unique_from marker (marker c ∷ seen) cs
  ]

  -- `_fallback_candidates`
  unfoldable pub fallback_candidates : (SdkCall → Text) → List SdkCall
  unfolding unique_from candidates
  fallback_candidates marker = unique_from marker [] candidates
