-- ===== src/Executor/Dispatch.antt =====
-- executor.py: `execute`, over the SDK and the client's `invoke`, which act on a state of the world.
use prisma_sdwan_mcp.Prelude.Int.{pos}
use prisma_sdwan_mcp.Prelude.{
  ltb, if◌then◌else◌, length, Bool, true, false, ◌&&◌, Option, none, some, List, [], ◌∷◌,
}
use prisma_sdwan_mcp.Value.{Value, int, str, dict, Fields, end, field, get, get_or_null}
use prisma_sdwan_mcp.Safety.{Patterns, redact}
use prisma_sdwan_mcp.Catalog.{ActionSpec, get_action}
use prisma_sdwan_mcp.Errors.{
  CapabilityMessage, no_namespace, no_method, unable_to_bind, RegistryMessage, Failure, capability,
  registry, unexpected,
}
use prisma_sdwan_mcp.Prelude.Text.{Text, codes, text_eq, lower}
use prisma_sdwan_mcp.Prelude.Result.{Result, err, ok, ◌>>=◌}
use prisma_sdwan_mcp.Executor.Paths.{validate_paths}
use prisma_sdwan_mcp.Executor.Body.{SchemaCheck, validate_body}
use prisma_sdwan_mcp.Executor.Binding.{Param, SdkCall, signature_call, fallback_candidates}

-- What `client.invoke` does: a TypeError with its text, another exception by its class, or a result.
pub data Invoked : Type 0 where
  type_error : Text → Invoked
  raised : Text → Invoked
  returned : Value → Invoked

-- The SDK: whether it has a namespace, the signature of a method that it has, and a call of it.
pub record Sdk (S : Type 0) : Type 0 where
  pub has_namespace : Text → Bool
  pub method : Text → Text → Option (Option (List Param))
  pub invoke : Text → Text → SdkCall → S → Invoked × S

-- The executor's catalog, its SDK, the patterns of its ResponseSafety, the schema validator and the
-- texts by which calls are compared.
pub record Executor (S : Type 0) : Type 0 where
  pub actions : List ActionSpec
  pub sdk : Sdk S
  pub patterns : Patterns
  pub check_schema : Value → Value → SchemaCheck
  pub marker : SdkCall → Text

-- `isinstance(result, dict) and result.get("exception_type") == "TypeError"`
unfoldable pub is_type_error : Value → Bool
unfolding get_or_null text_eq codes
is_type_error (dict fs) = elim (get_or_null "exception_type" fs) [
  | str t ↦ text_eq t (codes "TypeError")
  | _ ↦ false
]
is_type_error v = false

unfoldable pub error_of : Value → Option Value
unfolding get
error_of (dict fs) = get "error" fs
error_of v = none

unfoldable pub to_failure : {A : Type 0} → Result CapabilityMessage A → Result Failure A
to_failure (ok a) = ok a
to_failure (err m) = err (capability m)

unfoldable pub registry_failure : {A : Type 0} → Result RegistryMessage A → Result Failure A
registry_failure (ok a) = ok a
registry_failure (err m) = err (registry m)

module _ {S : Type 0} (x : Executor S) where
  unfoldable pub after_invoke :
      Bool
      → (Option Value → S → Result Failure Value × S)
      → Option Value
      → Invoked × S
      → Result Failure Value × S
  unfolding is_type_error error_of redact
  after_invoke many next last (type_error m, s) = next (some (str m)) s
  after_invoke many next last (raised e, s) = (err (unexpected e), s)
  after_invoke many next last (returned v, s) =
      if is_type_error v && many then next (error_of v) s else (ok (redact x.patterns v), s)

  -- The loop over the candidates, with the last TypeError; `many` tells whether there are several.
  unfoldable pub try_calls :
      Bool → ActionSpec → List SdkCall → Option Value → S → Result Failure Value × S
  unfolding after_invoke lower
  try_calls many action [] last s = (err (capability (unable_to_bind action.sdk_call last)), s)
  try_calls many action (c ∷ cs) last s =
      after_invoke many (try_calls many action cs) last
        (x.sdk.invoke (lower action.http_method) action.sdk_call c s)

  unfoldable pub call_candidates : ActionSpec → Fields → Value → Option (List Param) → List SdkCall
  unfolding signature_call fallback_candidates
  call_candidates action paths body signature = elim (signature_call action paths body signature) [
    | some c ↦ c ∷ []
    | none ↦ fallback_candidates action paths body x.marker
  ]

  -- The two uses of `getattr`: the signature of the method, if there is one.
  unfoldable pub find_method : ActionSpec → Result Failure (Option (List Param))
  unfolding lower
  find_method action = elim (x.sdk.has_namespace (lower action.http_method)) [
    | false ↦ err (capability (no_namespace (lower action.http_method)))
    | true ↦ elim (x.sdk.method (lower action.http_method) action.sdk_call) [
      | none ↦ err (capability (no_method (lower action.http_method) action.sdk_call))
      | some signature ↦ ok signature
    ]
  ]

  -- The checks and the candidates, for an action of the catalog.
  unfoldable pub prepare_action :
      ActionSpec → Fields → Value → Result Failure (ActionSpec × List SdkCall)
  unfolding to_failure validate_paths validate_body call_candidates find_method
  prepare_action action path_parameters body = do
    paths ← to_failure (validate_paths action path_parameters)
    checked ← to_failure (validate_body x.check_schema action body)
    found ← find_method action
    ok (action, call_candidates action paths checked found)

  -- What is known before a call: the action and the candidates.
  unfoldable pub prepare : Text → Fields → Value → Result Failure (ActionSpec × List SdkCall)
  unfolding registry_failure get_action prepare_action
  prepare action_id path_parameters body =
      registry_failure (get_action x.actions action_id) >>= λ action.
      prepare_action action path_parameters body

  unfoldable pub run_prepared :
      Result Failure (ActionSpec × List SdkCall) → S → Result Failure Value × S
  unfolding try_calls
  run_prepared (err f) s = (err f, s)
  run_prepared (ok (action, calls)) s = try_calls (ltb 1 (length calls)) action calls none s

  unfoldable pub execute : Text → Fields → Value → S → Result Failure Value × S
  unfolding run_prepared prepare
  execute action_id path_parameters body s = run_prepared (prepare action_id path_parameters body) s

  unfoldable caught_error : Text → Value
  caught_error message =
      dict (field "error" (str message) (field "status_code" (int (pos 400)) end))

  -- The error object of an exception of the catalog or the executor; `text` is its `str`.
  unfoldable caught : (Failure → Text) → Result Failure Value → Result Failure Value
  caught text (ok v) = ok v
  caught text (err (registry m)) = ok (caught_error (text (registry m)))
  caught text (err (capability m)) = ok (caught_error (text (capability m)))
  caught text (err e) = err e

  -- `try_execute`
  unfoldable try_execute : (Failure → Text) → Text → Fields → Value → S → Result Failure Value × S
  unfolding caught
  try_execute text action_id path_parameters body s =
      let (r, after) = execute action_id path_parameters body s in (caught text r, after)
