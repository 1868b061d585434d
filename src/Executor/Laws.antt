-- ===== src/Executor/Laws.antt =====
-- executor.py: the results of `execute`.
use prisma_sdwan_mcp.Prelude.{
  ltb, Bool-cases, length, In, ◌≡◌, refl, ◌⊎◌, inl, inr, Bool, ◌&&◌, Option, none, some, List, [],
  ◌∷◌,
}
use prisma_sdwan_mcp.Prelude.Text.{Text, lower}
use prisma_sdwan_mcp.Value.{Value, str, Fields}
use prisma_sdwan_mcp.Safety.{redact}
use prisma_sdwan_mcp.Safety.Laws.{IsClean, redact-IsClean}
use prisma_sdwan_mcp.Catalog.{ActionSpec}
use prisma_sdwan_mcp.Errors.{Failure}
use prisma_sdwan_mcp.Prelude.Result.{Result, err, ok}
use prisma_sdwan_mcp.Executor.Binding.{SdkCall}
use prisma_sdwan_mcp.Executor.Dispatch.{
  Invoked, type_error, raised, returned, Executor, is_type_error, error_of, after_invoke, try_calls,
  prepare, run_prepared, execute,
}

-- The value is the redaction of one that `client.invoke` returned for one of the calls.
abbrev pub IsAnswer : {S : Type 0} → Executor S → ActionSpec → List SdkCall → Value → Type 0
IsAnswer {S} x action calls v =
    (c : SdkCall) × (s : S) × (raw : Value) × In c calls
    × ((x.sdk.invoke (lower action.http_method) action.sdk_call c s).0 ≡ returned raw)
    × (v ≡ redact x.patterns raw)

module _ {S : Type 0} (x : Executor S) where
  after_invoke-cases :
      (many : Bool) (next : Option Value → S → Result Failure Value × S) (last : Option Value)
      (out : Invoked × S) (v : Value) (s' : S)
      → after_invoke x many next last out ≡ (ok v, s')
      → ((raw : Value) × (out.0 ≡ returned raw) × (v ≡ redact x.patterns raw))
        ⊎ ((last' : Option Value) × (next last' out.1 ≡ (ok v, s')))
  unfolding after_invoke
  after_invoke-cases many next last (type_error m, s) v s' h = inr (some (str m), h)
  after_invoke-cases many next last (raised e, s) v s' h = cc
  after_invoke-cases many next last (returned raw, s) v s' h =
      elim (Bool-cases (is_type_error raw && many)) [
        | inl e ↦ inr (error_of raw, rw (after_invoke, e) at h)
        | inr e ↦ inl (raw, refl, cc (rw (after_invoke, e) at h))
      ]

  try_calls-IsAnswer :
      (many : Bool) (action : ActionSpec) (calls : List SdkCall) (last : Option Value) (s s' : S)
      (v : Value)
      → try_calls x many action calls last s ≡ (ok v, s')
      → IsAnswer x action calls v
  unfolding try_calls
  try_calls-IsAnswer many action [] last s s' v h = cc
  try_calls-IsAnswer many action (c ∷ cs) last s s' v h =
      elim (after_invoke-cases many (try_calls x many action cs) last
        (x.sdk.invoke (lower action.http_method) action.sdk_call c s) v s' h) [
          | inl (raw, e, f) ↦ (c, s, raw, inl refl, e, f)
          | inr (last', e) ↦
              let (d, s1, raw, m, f, g) =
                try_calls-IsAnswer many action cs last'
                  (x.sdk.invoke (lower action.http_method) action.sdk_call c s).1 s' v e in
              (d, s1, raw, inr m, f, g)
        ]

  -- The result of `execute`: the arguments were accepted, it is an answer to one of the calls that
  -- they allow, and it is clean.
  abbrev pub IsResult : Text → Fields → Value → Value → Type 0
  IsResult action_id paths body v =
      (p : ActionSpec × List SdkCall) × (prepare x action_id paths body ≡ ok p)
      × IsAnswer x p.0 p.1 v
      × IsClean x.patterns v

  run_prepared-IsResult :
      (o : Result Failure (ActionSpec × List SdkCall)) (s s' : S) (v : Value)
      → run_prepared x o s ≡ (ok v, s')
      → (p : ActionSpec × List SdkCall) × (o ≡ ok p) × IsAnswer x p.0 p.1 v
  unfolding run_prepared
  run_prepared-IsResult (err f) s s' v h = cc
  run_prepared-IsResult (ok (action, calls)) s s' v h =
      ((action, calls), refl, try_calls-IsAnswer (ltb 1 (length calls)) action calls none s s' v h)

  -- A value that `execute` returns is the redaction of what the client returned for one of the calls
  -- that the checked arguments allow, so no key of it is hidden and no sensitive value is left.
  pub execute-IsResult :
      (action_id : Text) (paths : Fields) (body v : Value) (s s' : S)
      → execute x action_id paths body s ≡ (ok v, s')
      → IsResult action_id paths body v
  unfolding execute
  execute-IsResult action_id paths body v s s' h =
      let (p, e, a) = run_prepared-IsResult (prepare x action_id paths body) s s' v h in
      let (c, s1, raw, m, f, g) = a in (p, e, a, rw g (redact-IsClean x.patterns raw))
