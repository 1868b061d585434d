-- ===== src/Executor/Tests.antt =====
-- An SDK that returns a secret, and the executor's theorems at it.
use prisma_sdwan_mcp.Prelude.{
  In, ℕ, suc, ◌+◌, ◌*◌, ◌≤◌, ◌≡◌, refl, true, false, some, [], ◌∷◌, arith,
}
use prisma_sdwan_mcp.Value.{Value, null, str, dict, Fields, end, field, get, get_or_null, truthy}
use prisma_sdwan_mcp.Safety.{is_sensitive_key, is_hidden_key, redact}
use prisma_sdwan_mcp.Prelude.Text.{codes, in_range, text_eq, lower}
use prisma_sdwan_mcp.Prelude.Result.{ok}
use prisma_sdwan_mcp.Catalog.{from_registry, required_path_parameters, holds, get_action}
use prisma_sdwan_mcp.Catalog.Tests.{action_of, two_actions}
use prisma_sdwan_mcp.Executor.Paths.{
  key_texts, clean_paths, value_at, is_blank, absent_from, validate_paths,
}
use prisma_sdwan_mcp.Executor.Body.{accepted, is_get, validate_body}
use prisma_sdwan_mcp.Executor.Binding.{
  positional_or_keyword, Param, SdkCall, is_variadic, is_post, takes_body, bind_other, bind_param,
  bind_params, is_missing, accept_bound, usable_params, signature_call,
}
use prisma_sdwan_mcp.Executor.Dispatch.{
  returned, Executor, is_type_error, to_failure, registry_failure, after_invoke, try_calls,
  call_candidates, find_method, prepare_action, prepare, run_prepared, execute,
}
use prisma_sdwan_mcp.Executor.Laws.{IsResult, execute-IsResult}
use prisma_sdwan_mcp.Executor.Bound.{Counted, execute-calls}
use prisma_sdwan_mcp.Executor.Arguments.{ArePaths, validate_paths-ArePaths, signature_call-In}

execution : Unit {0}
unfolding execute prepare prepare_action run_prepared try_calls after_invoke call_candidates
    find_method signature_call usable_params bind_params bind_param bind_other takes_body
    accept_bound is_missing is_variadic is_post validate_paths validate_body is_get clean_paths
    value_at is_blank required_path_parameters absent_from key_texts holds get_action text_eq codes
    lower in_range is_type_error get_or_null get to_failure registry_failure redact is_sensitive_key
    is_hidden_key truthy
execution = tt

abbrev takes_site_id : Param
takes_site_id = record { name = codes "site_id"; kind = positional_or_keyword; has_default = false }

-- The state is the number of calls.
abbrev one_method : Executor ℕ
one_method = record {
  actions = two_actions;
  sdk = record {
    has_namespace = λ n. true;
    method = λ n m. some (some (takes_site_id ∷ []));
    invoke = λ n m c s. (returned (dict (field "token" (str (codes "x")) end)), suc s);
  };
  patterns = codes "token" ∷ [];
  check_schema = λ s v. accepted;
  marker = λ c. [];
}

abbrev site_one : Fields
site_one = field "site_id" (str (codes "1")) end

abbrev hidden_token : Value
hidden_token = dict (field "token" (str (codes "[REDACTED]")) end)

executed : execute one_method (codes "sites.a") site_one null 0 ≡ (ok hidden_token, 1)
unfolding execution
executed = refl

execute-IsResult_example : IsResult one_method (codes "sites.a") site_one null hidden_token
execute-IsResult_example =
    execute-IsResult one_method (codes "sites.a") site_one null hidden_token 0 1 executed

abbrev counted : Counted one_method
counted = record { calls = λ s. s; most = 1; on_invoke = λ n m c s. omega arith }

execute-calls_test : (execute one_method (codes "sites.a") site_one null 0).1 ≤ 0 + 1 * 3
execute-calls_test = execute-calls one_method counted (codes "sites.a") site_one null 0

passes : validate_paths (action_of "sites.a" from_registry) site_one ≡ ok site_one
unfolding execution
passes = refl

validate_paths-ArePaths_test : ArePaths (action_of "sites.a" from_registry) site_one site_one
validate_paths-ArePaths_test =
    validate_paths-ArePaths (action_of "sites.a" from_registry) site_one site_one passes

abbrev by_name : SdkCall
by_name = record { args = []; kwargs = (codes "site_id", str (codes "1")) ∷ [] }

bound_by_name :
    signature_call (action_of "sites.a" from_registry) site_one null (some (takes_site_id ∷ []))
    ≡ some by_name
unfolding execution
bound_by_name = refl

found_one : value_at (codes "site_id") site_one ≡ some (str (codes "1"))
unfolding execution
found_one = refl

signature_call-In_example : In (codes "site_id", str (codes "1")) by_name.kwargs
signature_call-In_example =
    signature_call-In (action_of "sites.a" from_registry) site_one null (some (takes_site_id ∷ []))
      by_name (codes "site_id") (str (codes "1")) bound_by_name found_one
