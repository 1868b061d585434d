-- ===== src/Executor/Bound.antt =====
-- executor.py: how often `execute` calls the client.
use native.Mathlib.Nat.{mul-suc}
use prisma_sdwan_mcp.Executor.Body.{is_get, validate_body}
use prisma_sdwan_mcp.Executor.Paths.{validate_paths}
use prisma_sdwan_mcp.Catalog.{ActionSpec, holds, get_action}
use prisma_sdwan_mcp.Errors.{Failure}
use prisma_sdwan_mcp.Prelude.Result.{Result, err, ok, ◌>>=◌, chain_parts}
use prisma_sdwan_mcp.Prelude.Text.{Text, lower}
use prisma_sdwan_mcp.Executor.Dispatch.{
  Invoked, type_error, raised, returned, Executor, is_type_error, error_of, to_failure,
  registry_failure, after_invoke, try_calls, call_candidates, find_method, prepare_action, prepare,
  run_prepared, execute,
}
use prisma_sdwan_mcp.Prelude.{
  ltb, Bool-cases, Option-cases, length, ℕ, ◌+◌, ◌*◌, ◌≤◌, ◌≡◌, refl, inl, inr, Bool, ◌&&◌, Option,
  none, some, List, [], ◌∷◌, arith, mul-le-mul,
}
use prisma_sdwan_mcp.Value.{Value, str, Fields}
use prisma_sdwan_mcp.Executor.Binding.{
  Param, SdkCall, signature_call, candidates, unique_from, fallback_candidates,
}

unique_from-length :
    (action : ActionSpec) (paths : Fields) (body : Value) (marker : SdkCall → Text)
    (seen : List Text) (cs : List SdkCall)
    → length (unique_from action paths body marker seen cs) ≤ length cs
unfolding unique_from
unique_from-length action paths body marker seen [] = omega arith
unique_from-length action paths body marker seen (c ∷ cs) =
    elim (Bool-cases (holds (marker c) seen)) [
      | inl e ↦
          let le = unique_from-length action paths body marker seen cs in
          rw (unique_from, e) (omega (arith, le))
      | inr e ↦
          let le = unique_from-length action paths body marker (marker c ∷ seen) cs in
          rw (unique_from, e) (omega (arith, le))
    ]

candidates-length :
    (action : ActionSpec) (paths : Fields) (body : Value)
    → length (candidates action paths body) ≤ 3
unfolding candidates
candidates-length action paths body = elim (Bool-cases (is_get action)) [
  | inl e ↦ rw e (omega arith)
  | inr e ↦ rw e (omega arith)
]

itself : (m : ℕ) → m ≤ m
itself m = omega arith

pub scaled : (m a b : ℕ) → a ≤ b → m * a ≤ m * b
scaled m a b h = mul-le-mul (itself m) h

-- A count of calls, of which `client.invoke` makes at most `most`.
pub record Counted {S : Type 0} (x : Executor S) : Type 0 where
  pub calls : S → ℕ
  pub most : ℕ
  pub on_invoke :
      (namespace name : Text) (c : SdkCall) (s : S)
      → calls (x.sdk.invoke namespace name c s).1 ≤ calls s + most

module _ {S : Type 0} (x : Executor S) (k : Counted x) where
  call_candidates-length :
      (action : ActionSpec) (paths : Fields) (body : Value) (signature : Option (List Param))
      → length (call_candidates x action paths body signature) ≤ 3
  unfolding call_candidates fallback_candidates
  call_candidates-length action paths body signature =
      elim (Option-cases (signature_call action paths body signature)) [
        | inr (c, e) ↦ rw (call_candidates, e) (omega arith)
        | inl e ↦
            rw (call_candidates, e)
              (omega (
                arith,
                unique_from-length action paths body x.marker [] (candidates action paths body),
                candidates-length action paths body,
              ))
      ]

  after_invoke-calls :
      (many : Bool) (next : Option Value → S → Result Failure Value × S) (last : Option Value)
      (n : ℕ) (out : Invoked × S)
      → ((last' : Option Value) (s : S) → k.calls (next last' s).1 ≤ k.calls s + n)
      → k.calls (after_invoke x many next last out).1 ≤ k.calls out.1 + n
  unfolding after_invoke
  after_invoke-calls many next last n (type_error m, s) h = h (some (str m)) s
  after_invoke-calls many next last n (raised e, s) h = omega arith
  after_invoke-calls many next last n (returned raw, s) h =
      elim (Bool-cases (is_type_error raw && many)) [
        | inl e ↦ rw (after_invoke, e) (h (error_of raw) s)
        | inr e ↦ rw (after_invoke, e) (omega arith)
      ]

  try_calls-calls :
      (many : Bool) (action : ActionSpec) (cs : List SdkCall) (last : Option Value) (s : S)
      → k.calls (try_calls x many action cs last s).1 ≤ k.calls s + k.most * length cs
  unfolding try_calls
  try_calls-calls many action [] last s = omega arith
  try_calls-calls many action (c ∷ cs) last s =
      let one = k.on_invoke (lower action.http_method) action.sdk_call c s in
      omega (
        arith,
        one,
        mul-suc k.most (length cs),
        after_invoke-calls many (try_calls x many action cs) last (k.most * length cs)
            (x.sdk.invoke (lower action.http_method) action.sdk_call c s)
            (try_calls-calls many action cs),
      )

  prepare_action-length :
      (action : ActionSpec) (paths : Fields) (body : Value) (p : ActionSpec × List SdkCall)
      → prepare_action x action paths body ≡ ok p
      → length p.1 ≤ 3
  unfolding prepare_action
  prepare_action-length action paths body p h =
      let calls_for : Fields → Value → Option (List Param) → ActionSpec × List SdkCall =
        λ cleaned checked found. (action, call_candidates x action cleaned checked found) in
      let (cleaned, e, f) =
        chain_parts (to_failure (validate_paths action paths))
          (λ cleaned. to_failure (validate_body x.check_schema action body) >>= λ checked.
            find_method x action >>= λ found. ok (calls_for cleaned checked found))
          h in
      let (checked, g, k) =
        chain_parts (to_failure (validate_body x.check_schema action body))
          (λ checked. find_method x action >>= λ found. ok (calls_for cleaned checked found)) f in
      let (found, l, m) =
        chain_parts (find_method x action) (λ found. ok (calls_for cleaned checked found)) k in
      let same : calls_for cleaned checked found ≡ p = cc in
      rw (← same) (call_candidates-length action cleaned checked found)

  prepare-length :
      (action_id : Text) (paths : Fields) (body : Value) (p : ActionSpec × List SdkCall)
      → prepare x action_id paths body ≡ ok p
      → length p.1 ≤ 3
  unfolding prepare
  prepare-length action_id paths body p h =
      let (action, e, f) =
        chain_parts (registry_failure (get_action x.actions action_id))
          (λ action. prepare_action x action paths body) h in
      prepare_action-length action paths body p f

  run_prepared-calls :
      (o : Result Failure (ActionSpec × List SdkCall)) (s : S)
      → ((p : ActionSpec × List SdkCall) → o ≡ ok p → length p.1 ≤ 3)
      → k.calls (run_prepared x o s).1 ≤ k.calls s + k.most * 3
  unfolding run_prepared
  run_prepared-calls (err f) s h = omega arith
  run_prepared-calls (ok (action, calls)) s h =
      let few = scaled k.most (length calls) 3 (h (action, calls) refl) in
      omega (arith, few, try_calls-calls (ltb 1 (length calls)) action calls none s)

  -- `execute` makes at most three times as many calls as one `client.invoke`.
  pub execute-calls :
      (action_id : Text) (paths : Fields) (body : Value) (s : S)
      → k.calls (execute x action_id paths body s).1 ≤ k.calls s + k.most * 3
  unfolding execute
  execute-calls action_id paths body s =
      run_prepared-calls (prepare x action_id paths body) s (prepare-length action_id paths body)
