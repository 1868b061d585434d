-- ===== src/Tools/Calls.antt =====
-- tools/common.py: the calls of the executor that a step or a tool adds to the log.
use prisma_sdwan_mcp.Prelude.Text.{Text}
use prisma_sdwan_mcp.Errors.{Failure}
use prisma_sdwan_mcp.Prelude.{
  Option-cases, length, All, length-append, All-append, ℕ, suc, ◌+◌, ◌≤◌, String, ◌≡◌, refl, sym,
  ap, ◌∙◌, inl, inr, Option, List, [], ◌∷◌, ◌++◌, append-nil, append_assoc, arith,
}
use prisma_sdwan_mcp.Prelude.Result.{Result, err, ok}
use prisma_sdwan_mcp.Config.{Env, get_max_fanout}
use prisma_sdwan_mcp.Tools.{
  Call, Log, Toolbox, Step, raising, continue, ◌>>=◌, execute, resolve, ids_of, ids_if_given,
  id_of_named, try_tool, gather,
}
use prisma_sdwan_mcp.Common.{fail_from_upstream, handle_error}
use prisma_sdwan_mcp.Tools.Replies.{unless_failed}
use prisma_sdwan_mcp.Value.{Value, Fields, end, get}
use prisma_sdwan_mcp.Resolver.{given}

-- At most `n` calls are added to the log, and each of them is a `P`.
pub record Adds {A : Type 0} (P : Call → Type 0) (n : ℕ) (m : Log → A × Log) : Type 0 where
  pub added :
      (log : Log)
      → (calls : List Call) × ((m log).1 ≡ log ++ calls) × All P calls × (length calls ≤ n)

-- The largest number of calls of one fan-out; none where the setting cannot be read.
unfoldable pub fanout_limit : Env → ℕ
fanout_limit env = elim (get_max_fanout env) [ err e ↦ 0 | ok n ↦ n ]

module _ {P : Call → Type 0} where
  pub none-Adds : {A : Type 0} {m : Log → A × Log} → ((log : Log) → (m log).1 ≡ log) → Adds P 0 m
  none-Adds {m} same = record {
    added = λ log. ([], same log ∙ sym (append-nil log), tt, omega arith);
  }

  pub more-Adds : {A : Type 0} (m : Log → A × Log) (n k : ℕ) → n ≤ k → Adds P n m → Adds P k m
  more-Adds m n k le adds = record {
    added =
        λ log. let (calls, whole, each, few) = adds.added log in (calls, whole, each, omega arith);
  }

  -- A step that has run, and what it and the next one add.
  continue-Adds :
      {A B : Type 0} (r : Result Failure A × Log) (f : A → Step B) (n k : ℕ) (log : Log)
      (calls : List Call)
      → r.1 ≡ log ++ calls
      → All P calls
      → length calls ≤ n
      → ((a : A) → r.0 ≡ ok a → Adds P k (f a))
      → (more : List Call) × ((continue r f).1 ≡ log ++ more) × All P more × (length more ≤ n + k)
  unfolding continue
  continue-Adds (err e, log') f n k log calls whole each few next =
      (calls, whole, each, omega arith)
  continue-Adds (ok a, log') f n k log calls whole each few next =
      let (more, longer, each', few') = (next a refl).added log' in
      (
        calls ++ more,
        longer ∙ ap (λ l. l ++ more) whole ∙ append_assoc log calls more,
        All-append P calls more each each',
        omega (arith, length-append calls more),
      )

  pub bind-Adds :
      {A B : Type 0} {m : Step A} {f : A → Step B} (n k most : ℕ)
      → n + k ≤ most
      → Adds P n m
      → ((a : A) → Adds P k (f a))
      → Adds P most (m >>= f)
  unfolding ◌>>=◌
  bind-Adds {m} {f} n k most le first next = record {
    added = λ log.
        let (calls, whole, each, few) = first.added log in
        let (more, longer, each', few') =
          continue-Adds (m log) f n k log calls whole each few (λ a e. next a) in
        (more, longer, each', omega arith);
  }

  -- The step behind a result or an exception, which may use what the result is.
  pub raising-Adds :
      {A B : Type 0} (r : Result Failure A) (f : A → Step B) (k : ℕ)
      → ((a : A) → r ≡ ok a → Adds P k (f a))
      → Adds P k (raising r >>= f)
  unfolding ◌>>=◌
  raising-Adds r f k next = record {
    added = λ log.
        let (calls, whole, each, few) =
          continue-Adds (r, log) f 0 k log [] (sym (append-nil log)) tt (omega arith) next in
        (calls, whole, each, omega arith);
  }

  pub execute-Adds :
      (b : Toolbox) (action : String) (paths : Fields) (body : Option Fields)
      → P (record { action = action; paths = paths; body = body })
      → Adds P 1 (execute b action paths body)
  unfolding execute
  execute-Adds b action paths body p = record { added = λ log. (_, refl, (p, tt), omega arith) }

  pub gather-Adds :
      {A B : Type 0} (f : A → Step (List B)) (xs : List A)
      → ((x : A) → Adds P 1 (f x))
      → Adds P (length xs) (gather f xs)
  unfolding gather
  gather-Adds f [] each = none-Adds (λ log. refl)
  gather-Adds f (x ∷ xs) each =
      bind-Adds 1 (length xs) (suc (length xs)) (omega arith) (each x) (λ ys.
        bind-Adds (length xs) 0 (length xs) (omega arith) (gather-Adds f xs each)
          (λ zs. none-Adds (λ log. refl)))

  pub try_tool-Adds :
      (b : Toolbox) (tool : Text) (m : Step Fields) (n : ℕ)
      → Adds P n m
      → Adds P n (try_tool b tool m)
  unfolding try_tool
  try_tool-Adds b tool m n adds = record {
    added = λ log.
        let (calls, whole, each, few) = adds.added log in
        (calls, same_log ((m log).0) ((m log).1) ∙ whole, each, few);
  }
    where
      same_log :
          (r : Result Failure Fields) (log : Log)
          → (elim r as (λ x. Fields × Log) [
            | ok reply ↦ (reply, log)
            | err e ↦ (handle_error b.text tool e end, log)
          ]).1
            ≡ log
      same_log (ok reply) log = refl
      same_log (err e) log = refl

  pub ids_if_given-Adds :
      (b : Toolbox) (site element : Option Text) → Adds P 0 (ids_if_given b site element)
  unfolding ids_if_given ids_of
  ids_if_given-Adds b site element = elim (Option-cases (given site)) [
    | inl e ↦ elim (Option-cases (given element)) [
      | inl k ↦ rw (ids_if_given, e, k) (none-Adds (λ log. refl))
      | inr (name, k) ↦ rw (ids_if_given, e, k) (none-Adds (λ log. refl))
    ]
    | inr (name, e) ↦ rw (ids_if_given, e) (none-Adds (λ log. refl))
  ]

  pub id_of_named-Adds :
      (b : Toolbox) (kind : String) (name : Text) → Adds P 0 (id_of_named b kind name)
  unfolding id_of_named resolve
  id_of_named-Adds b kind name = bind-Adds 0 0 0 (omega arith) (none-Adds (λ log. refl)) (λ r.
      elim (Option-cases (get "id" r)) [
        | inl e ↦ rw e (none-Adds (λ log. refl))
        | inr (v, e) ↦ rw e (none-Adds (λ log. refl))
      ])

  pub unless_failed-Adds :
      (b : Toolbox) (tool : Text) (data_ : Value) (next : Step Fields) (n : ℕ)
      → Adds P n next
      → Adds P n (unless_failed b tool data_ next)
  unfolding unless_failed
  unless_failed-Adds b tool data_ next n adds =
      elim (Option-cases (fail_from_upstream b.repr tool data_)) [
        | inl e ↦ rw (unless_failed, e) adds
        | inr (error, e) ↦
            rw (unless_failed, e) (more-Adds _ _ _ (omega arith) (none-Adds (λ log. refl)))
      ]
