-- ===== src/Cli/Policy/Batch.antt =====
-- cli/policy.py: when a batch is accepted.
use prisma_sdwan_mcp.Prelude.{
  ltb, if◌then◌else◌, ltb→lt, Bool-cases, length, any, All, ℕ, ◌≤◌, ◌≡◌, refl, ◌↔◌, inl, inr, true,
  false, not, Option, none, some, List, [], ◌∷◌, map, arith,
}
use prisma_sdwan_mcp.Prelude.Result.{Result, ok}
use prisma_sdwan_mcp.Config.{Env, ConfigError, get_ion_max_commands}
use prisma_sdwan_mcp.Cli.Policy.{
  Command, validate_command, too_many, BatchDecision, rejected, sequence, decide_batch,
  validate_batch,
}

abbrev pub AllApproved : List Command → Type 0
AllApproved cs = All (λ c. (validate_command c).allowed ≡ true) cs

any_denied-none :
    (cs : List Command)
    → any (λ d. not d.allowed) (map validate_command cs) ≡ false
    → AllApproved cs
any_denied-none [] h = tt
any_denied-none (c ∷ cs) h = (ground arith, any_denied-none cs (ground arith))

none-any_denied :
    (cs : List Command)
    → AllApproved cs
    → any (λ d. not d.allowed) (map validate_command cs) ≡ false
none-any_denied [] h = refl
none-any_denied (c ∷ cs) (p, h) = rw p (none-any_denied cs h)

-- What the limit is: the argument, or the configured one.
abbrev pub limit_of : Env → Option ℕ → Result ConfigError ℕ
limit_of env none = get_ion_max_commands env
limit_of env (some n) = ok n

abbrev pub IsAcceptable : ℕ → List Command → Type 0
IsAcceptable limit cs = (1 ≤ length cs) × (length cs ≤ limit) × AllApproved cs

decide_batch_sound :
    (cs : List Command)
    → (decide_batch (map validate_command cs)).allowed ≡ true
    → (1 ≤ length cs) × AllApproved cs
unfolding decide_batch
decide_batch_sound [] h = cc
decide_batch_sound (c ∷ cs) h =
    elim (Bool-cases (any (λ d. not d.allowed) (map validate_command (c ∷ cs)))) [
      | inl e ↦ cc (rw e at h)
      | inr e ↦ (omega arith, any_denied-none (c ∷ cs) e)
    ]

decide_batch_complete :
    (cs : List Command)
    → 1 ≤ length cs
    → AllApproved cs
    → (decide_batch (map validate_command cs)).allowed ≡ true
unfolding decide_batch
decide_batch_complete [] h k = absurd (omega arith)
decide_batch_complete (c ∷ cs) h k = rw (none-any_denied (c ∷ cs) k) refl

decide : ℕ → List Command → BatchDecision
decide limit cs =
    if ltb limit (length cs)
    then rejected [] (too_many (length cs) limit)
    else decide_batch (map validate_command cs)

validate_batch-decide :
    (env : Env) (max_commands : Option ℕ) (limit : ℕ) (cs : List Command)
    → limit_of env max_commands ≡ ok limit
    → validate_batch env (sequence cs) max_commands ≡ ok (decide limit cs)
unfolding validate_batch decide
validate_batch-decide env none limit cs h = rw h (ground arith)
validate_batch-decide env (some n) limit cs h = ground arith

-- With a limit that can be read, `validate_batch` answers, and it accepts the batch exactly when the
-- batch is not empty, does not pass the limit and has only commands that are accepted.
pub validate_batch_iff :
    (env : Env) (max_commands : Option ℕ) (limit : ℕ) (cs : List Command)
    → limit_of env max_commands ≡ ok limit
    → (d : BatchDecision) × (validate_batch env (sequence cs) max_commands ≡ ok d)
      × ((d.allowed ≡ true) ↔ IsAcceptable limit cs)
unfolding decide
validate_batch_iff env max_commands limit cs h = (
  decide limit cs,
  validate_batch-decide env max_commands limit cs h,
  elim (Bool-cases (ltb limit (length cs))) [
    | inl e ↦ rw e (λ x. cc, λ ok. absurd (omega (arith, ltb→lt limit (length cs) e)))
    | inr e ↦ rw e (
      λ x. let (a, b) = decide_batch_sound cs x in (a, ground arith, b),
      λ ok. decide_batch_complete cs ok.0 ok.2,
    )
  ],
)
