-- ===== src/Catalog/Wanted.antt =====
-- catalog.py: the order of ids, and the actions that a listing is asked for.
use prisma_sdwan_mcp.Prelude.{
  leb, ◌==◌, if◌then◌else◌, Bool-cases, ℕ, ◌+◌, ◌-◌, ◌≤◌, ◌<◌, ◌≡◌, refl, ap, ◌↔◌, ◌⊎◌, inl, inr,
  true, false, ◌&&◌, Option, none, some, [], ◌∷◌, ◌++◌, arith,
}
use prisma_sdwan_mcp.Prelude.Text.{Text, text_eq, text_eq→eq, text_eq_refl}
use prisma_sdwan_mcp.Catalog.{ActionSpec, text_before, upper, is_listed}

-- One text is the other or a beginning of it, or the first character in which they differ is smaller in
-- it.
abbrev pub IsUpTo : Text → Text → Type 0
IsUpTo s t =
    ((u : Text) × (t ≡ s ++ u))
    ⊎ ((p : Text) × (c : ℕ) × (d : ℕ) × (u : Text) × (v : Text) × (s ≡ p ++ c ∷ u)
        × (t ≡ p ++ d ∷ v)
        × (c < d))

pub IsUpTo-cons : (c : ℕ) (s t : Text) → IsUpTo s t → IsUpTo (c ∷ s) (c ∷ t)
IsUpTo-cons c s t (inl (u, e)) = inl (u, ap (λ x. c ∷ x) e)
IsUpTo-cons c s t (inr (p, a, b, u, v, e, f, lt)) =
    inr (c ∷ p, a, b, u, v, ap (λ x. c ∷ x) e, ap (λ x. c ∷ x) f, lt)

pub text_before-IsUpTo : (s t : Text) → text_before t s ≡ false → IsUpTo s t
unfolding text_before
text_before-IsUpTo [] t h = inl (t, refl)
text_before-IsUpTo (c ∷ s) [] h = cc
text_before-IsUpTo (c ∷ s) (d ∷ t) h = elim (Bool-cases (d == c)) [
  | inl e ↦
      let same : d ≡ c = ground (arith, e) in
      rw same (IsUpTo-cons c s t (text_before-IsUpTo s t (rw e at h)))
  | inr e ↦
      let differ : c < d = ground (arith, e, rw e at h) in inr ([], c, d, s, t, refl, refl, differ)
]

-- The upper case of a character, on ASCII letters.
abbrev pub IsUpperOf : ℕ → ℕ → Type 0
IsUpperOf c d = ((b'a' ≤ c) × (c ≤ b'z') × (d + 32 ≡ c)) ⊎ (((c < b'a') ⊎ (b'z' < c)) × (d ≡ c))

abbrev pub AreUpper : Text → Text → Type 0
AreUpper [] [] = Unit
AreUpper (c ∷ s) (d ∷ t) = IsUpperOf c d × AreUpper s t
AreUpper [] (d ∷ t) = ⊥
AreUpper (c ∷ s) [] = ⊥

abbrev pub upper_char : ℕ → ℕ
upper_char c = if leb b'a' c && leb c b'z' then c - 32 else c

pub IsUpperOf-iff : (c d : ℕ) → (d ≡ upper_char c) ↔ IsUpperOf c d
IsUpperOf-iff c d = (to, from)
  where
    to : d ≡ upper_char c → IsUpperOf c d
    to h = elim (Bool-cases (leb b'a' c)) [
      | inr e ↦ inr (inl (ground (arith, e)), rw (upper_char, e) at h)
      | inl e ↦ elim (Bool-cases (leb c b'z')) [
        | inr f ↦ inr (inr (ground (arith, f)), rw (upper_char, e, f) at h)
        | inl f ↦
            let low : b'a' ≤ c = ground (arith, e) in
            let same : d ≡ c - 32 = rw (upper_char, e, f) at h in
            inl (low, ground (arith, f), omega (arith, low, same))
      ]
    ]

    from : IsUpperOf c d → d ≡ upper_char c
    from (inl (low, high, e)) = ground arith
    from (inr (inl low, e)) = ground arith
    from (inr (inr high, e)) = ground arith

pub AreUpper-iff : (s t : Text) → (text_eq t (upper s) ≡ true) ↔ AreUpper s t
unfolding text_eq upper
AreUpper-iff [] [] = (λ h. tt, λ h. refl)
AreUpper-iff [] (d ∷ t) = (λ h. cc, λ h. absurd h)
AreUpper-iff (c ∷ s) [] = (λ h. cc, λ h. absurd h)
AreUpper-iff (c ∷ s) (d ∷ t) =
    let (to, from) = IsUpperOf-iff c d in
    let (there, back) = AreUpper-iff s t in
    (
      λ h. (to (ground (arith, h)), there (ground (arith, h))),
      λ (p, q). (ground (arith, from p, back q)),
    )

-- The method that is asked for, if one is, in any case of its letters.
abbrev pub HasMethod : Option Text → ActionSpec → Type 0
HasMethod none a = Unit
HasMethod (some []) a = Unit
HasMethod (some (c ∷ s)) a = AreUpper (c ∷ s) a.http_method

abbrev pub IsWanted : Text → Option Text → ActionSpec → Type 0
IsWanted domain method a = (a.domain ≡ domain) × HasMethod method a

pub eq→text_eq : (s t : Text) → s ≡ t → text_eq s t ≡ true
eq→text_eq s t e = rw e (text_eq_refl t)

pub is_listed_iff :
    (domain : Text) (method : Option Text) (a : ActionSpec)
    → (is_listed domain method a ≡ true) ↔ IsWanted domain method a
unfolding is_listed
is_listed_iff domain none a =
    (λ h. (text_eq→eq a.domain domain h, tt), λ (e, u). eq→text_eq a.domain domain e)
is_listed_iff domain (some []) a =
    (λ h. (text_eq→eq a.domain domain h, tt), λ (e, u). eq→text_eq a.domain domain e)
is_listed_iff domain (some (c ∷ s)) a =
    let (to, from) = AreUpper-iff (c ∷ s) a.http_method in
    (
      λ h. (text_eq→eq a.domain domain (ground (arith, h)), to (ground (arith, h))),
      λ (e, u). rw (eq→text_eq a.domain domain e, from u) refl,
    )
