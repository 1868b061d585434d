-- ===== src/Prelude/Result.antt =====
-- A call that may raise: `E` is the exception, and a chain of calls stops at the first one raised.
use prisma_sdwan_mcp.Prelude.{◌≡◌, refl, subst, ◌⊎◌, inl, inr, Bool, true, false, none, some}

pub data Result {ℓ} (E A : Type ℓ) : Type ℓ where
  err : (raised : E) → Result E A
  ok : (returned : A) → Result E A

infixl 5 ◌>>=◌ ◌>>◌
abbrev pub ◌>>=◌ {ℓ} : {E A B : Type ℓ} → Result E A → (A → Result E B) → Result E B
err raised >>= next = err raised
ok returned >>= next = next returned

abbrev pub ◌>>◌ : {E B : Type 0} → Result E (Unit {0}) → Result E B → Result E B
first >> next = first >>= λ done. next

-- `if not test: raise e`
abbrev pub guard : {E : Type 0} → Bool → E → Result E (Unit {0})
guard passes raised = elim passes [ false ↦ err raised | true ↦ ok tt ]

-- The step that a successful chain began with, and what it handed on.
pub chain_parts {ℓ} :
    {E A B : Type ℓ} (first : Result E A) (next : A → Result E B) {b : B}
    → (first >>= next) ≡ ok b
    → (mid : A) × (first ≡ ok mid) × (next mid ≡ ok b)
chain_parts (ok mid) next whole = (mid, refl, whole)
chain_parts (err raised) next whole = cc

-- A call that raises returns nothing.
pub raise_absurd {ℓ m} :
    {E A : Type ℓ} {B : Type m} {raised : E} {returned : A} → err raised ≡ ok returned → B
raise_absurd {raised = raised} whole =
    let impossible : Unit {0} ≡ ⊥ = cc in absurd (subst (λ x. x) impossible tt)

pub returned_eq {ℓ} : {E A : Type ℓ} {a b : A} → ◌≡◌ {A = Result E A} (ok a) (ok b) → a ≡ b
returned_eq same = cc

-- What holds of all that the rest of a chain returns.
pub chain_kept {ℓ} :
    {E A B : Type ℓ} (P : B → Type 0) (first : Result E A) (next : A → Result E B)
    → ((mid : A) (b : B) → next mid ≡ ok b → P b)
    → (b : B) → (first >>= next) ≡ ok b
    → P b
chain_kept P (ok mid) next kept b whole = kept mid b whole
chain_kept P (err raised) next kept b whole = raise_absurd whole

-- A call raised or returned.
pub Result-cases {ℓ} :
    {E A : Type ℓ} (r : Result E A) → ((e : E) × (r ≡ err e)) ⊎ ((a : A) × (r ≡ ok a))
Result-cases (err e) = inl (e, refl)
Result-cases (ok a) = inr (a, refl)

pub none_absurd : {A B : Type 0} {a : A} → none ≡ some a → B
none_absurd e = let impossible : Unit {0} ≡ ⊥ = cc in absurd (subst (λ x. x) impossible tt)
