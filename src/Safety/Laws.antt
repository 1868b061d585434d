-- ===== src/Safety/Laws.antt =====
-- What `redact` guarantees of its result, and what it leaves alone.
use prisma_sdwan_mcp.Prelude.{
  Bool-cases, String, ◌≡◌, refl, ap, ◌≢◌, inl, inr, true, false, some, arith, str_eq, eq_iff,
  eq_refl,
}
use prisma_sdwan_mcp.Value.{
  Value, null, bool, int, real, str, list, dict, Fields, end, field, Items, nil, cons, is_null, get,
}
use prisma_sdwan_mcp.Safety.{
  Patterns, is_sensitive_key, is_hidden_key, redacted, redact, redact_fields, redact_items,
}

-- Nowhere inside does a sensitive key hold anything but the marker, and no key is hidden and no
-- entry null.
mutual
  pub IsClean : Patterns → Value → Type 0
  IsClean ps (dict fs) = AreClean ps fs
  IsClean ps (list vs) = AllClean ps vs
  IsClean ps null = Unit
  IsClean ps (bool b) = Unit
  IsClean ps (int n) = Unit
  IsClean ps (real t) = Unit
  IsClean ps (str s) = Unit

  pub AreClean : Patterns → Fields → Type 0
  AreClean ps end = Unit
  AreClean ps (field k v fs) =
      (is_hidden_key k ≡ false)
      × (v ≢ null)
      × (is_sensitive_key ps k ≡ true → v ≡ redacted)
      × IsClean ps v
      × AreClean ps fs

  pub AllClean : Patterns → Items → Type 0
  AllClean ps nil = Unit
  AllClean ps (cons v vs) = IsClean ps v × AllClean ps vs

redact-ne-null : (ps : Patterns) (v : Value) → is_null v ≡ false → redact ps v ≢ null
unfolding redact
redact-ne-null ps v h = ground arith

mutual
  unfolding redact IsClean

  clean : (ps : Patterns) (v : Value) → IsClean ps (redact ps v)
  clean ps (dict fs) = clean_fields ps fs
  clean ps (list vs) = clean_items ps vs
  clean ps null = tt
  clean ps (bool b) = tt
  clean ps (int n) = tt
  clean ps (real t) = tt
  clean ps (str s) = tt

  clean_fields : (ps : Patterns) (fs : Fields) → AreClean ps (redact_fields ps fs)
  clean_fields ps end = tt
  clean_fields ps (field k v fs) = elim (Bool-cases (is_hidden_key k)) [
    | inl e ↦ rw e (clean_fields ps fs)
    | inr e ↦ elim (Bool-cases (is_sensitive_key ps k)) [
      | inl s ↦ rw (e, s) (e, λ x. cc, λ x. refl, tt, clean_fields ps fs)
      | inr s ↦ elim (Bool-cases (is_null v)) [
        | inl n ↦ rw (e, s, n) (clean_fields ps fs)
        | inr n ↦ rw (e, s, n) (e, redact-ne-null ps v n, λ x. cc, clean ps v, clean_fields ps fs)
      ]
    ]
  ]

  clean_items : (ps : Patterns) (vs : Items) → AllClean ps (redact_items ps vs)
  clean_items ps nil = tt
  clean_items ps (cons v vs) = (clean ps v, clean_items ps vs)

-- Whatever the value, its redaction is clean at every depth.
pub redact-IsClean : (ps : Patterns) (v : Value) → IsClean ps (redact ps v)
redact-IsClean ps v = clean ps v

not_null : (v : Value) → v ≢ null → is_null v ≡ false
not_null null h = absurd (h refl)
not_null (bool b) h = refl
not_null (int n) h = refl
not_null (real t) h = refl
not_null (str s) h = refl
not_null (list vs) h = refl
not_null (dict fs) h = refl

mutual
  unfolding redact IsClean

  fixed : (ps : Patterns) (v : Value) → IsClean ps v → redact ps v ≡ v
  fixed ps (dict fs) h = ap dict (fixed_fields ps fs h)
  fixed ps (list vs) h = ap list (fixed_items ps vs h)
  fixed ps null h = refl
  fixed ps (bool b) h = refl
  fixed ps (int n) h = refl
  fixed ps (real t) h = refl
  fixed ps (str s) h = refl

  fixed_fields : (ps : Patterns) (fs : Fields) → AreClean ps fs → redact_fields ps fs ≡ fs
  fixed_fields ps end h = refl
  fixed_fields ps (field k v fs) (a, b, c, d, e) = elim (Bool-cases (is_sensitive_key ps k)) [
    | inl s ↦ rw (a, s, c s, fixed_fields ps fs e) refl
    | inr s ↦ rw (a, s, not_null v b, fixed ps v d, fixed_fields ps fs e) refl
  ]

  fixed_items : (ps : Patterns) (vs : Items) → AllClean ps vs → redact_items ps vs ≡ vs
  fixed_items ps nil h = refl
  fixed_items ps (cons v vs) (h, k) = rw (fixed ps v h, fixed_items ps vs k) refl

-- Redacting twice is redacting once.
pub redact_idem : (ps : Patterns) (v : Value) → redact ps (redact ps v) ≡ redact ps v
redact_idem ps v = fixed ps (redact ps v) (redact-IsClean ps v)

-- An entry whose key is neither hidden nor sensitive, and which is not null, is still there, with
-- its value redacted.
pub get-redact :
    (ps : Patterns) (k : String) (v : Value) (fs : Fields)
    → is_hidden_key k ≡ false
    → is_sensitive_key ps k ≡ false
    → is_null v ≡ false
    → get k fs ≡ some v
    → get k (redact_fields ps fs) ≡ some (redact ps v)
unfolding redact get
get-redact ps k v end a b c h = cc
get-redact ps k v (field j w fs) a b c h = elim (Bool-cases (str_eq j k)) [
  | inl e ↦
      let same : j ≡ k = (eq_iff j k).0 e in
      let held : w ≡ v = ground arith in rw (same, a, b, held, c, eq_refl k) refl
  | inr e ↦
      let later = get-redact ps k v fs a b c (rw e at h) in
      elim (Bool-cases (is_hidden_key j)) [
        | inl x ↦ rw x later
        | inr x ↦ elim (Bool-cases (is_sensitive_key ps j)) [
          | inl y ↦ rw (x, y, e) later
          | inr y ↦ elim (Bool-cases (is_null w)) [
            | inl z ↦ rw (x, y, z) later
            | inr z ↦ rw (x, y, z, e) later
          ]
        ]
      ]
]
