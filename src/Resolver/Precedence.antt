-- ===== src/Resolver/Precedence.antt =====
-- The precedence of matches: what is selected are exactly the records of the best level that
-- occurs, and a record that matches in no way is never selected.
use prisma_sdwan_mcp.Prelude.{
  if◌then◌else◌, Bool-cases, keep, is_empty, In, All-at, keep_sound, In-keep, keep-In, ℕ, ◌≤◌, ◌<◌,
  String, ◌≡◌, refl, ◌↔◌, inl, inr, Bool, true, false, List, [], ◌∷◌, arith,
}
use prisma_sdwan_mcp.Prelude.Text.{Text, lower}
use prisma_sdwan_mcp.Value.{Value, Fields}
use prisma_sdwan_mcp.Resolver.{has_id, has_name, holds_name, select}

is_empty_none :
    (p : Fields → Bool) (rs : List Fields) (r : Fields)
    → is_empty (keep p rs) ≡ true
    → In r rs
    → p r ≡ false
is_empty_none p (x ∷ rs) r h (inl e) = elim (Bool-cases (p r)) [
  | inl k ↦ cc (rw (← e, k) at h)
  | inr k ↦ k
]
is_empty_none p (x ∷ rs) r h (inr m) = elim (Bool-cases (p x)) [
  | inl k ↦ cc (rw k at h)
  | inr k ↦ is_empty_none p rs r (rw k at h) m
]
is_empty_none p [] r h m = absurd m

some-In :
    (p : Fields → Bool) (rs : List Fields)
    → is_empty (keep p rs) ≡ false
    → (r : Fields) × In r rs × (p r ≡ true)
some-In p [] h = cc
some-In p (x ∷ rs) h = elim (Bool-cases (p x)) [
  | inl k ↦ (x, inl refl, k)
  | inr k ↦ let (r, m, q) = some-In p rs (rw k at h) in (r, inr m, q)
]

keep_test : (p : Fields → Bool) (rs : List Fields) (r : Fields) → In r (keep p rs) → p r ≡ true
keep_test p rs r m = All-at (λ x. p x ≡ true) r (keep p rs) (keep_sound p rs) m

module _ (repr : Value → Text) (fields : List String) (requested : Text) where
  -- How well a record matches: 1 by its id, 2 by a whole name, 3 by a part of a name, 4 not at all.
  abbrev pub level : Fields → ℕ
  level r =
      if has_id repr requested r
      then 1
      else if has_name repr fields (lower requested) r
      then 2
      else if holds_name repr fields (lower requested) r
      then 3
      else 4

  by_id : Fields → Bool
  by_id = has_id repr requested

  by_name : Fields → Bool
  by_name = has_name repr fields (lower requested)

  by_part : Fields → Bool
  by_part = holds_name repr fields (lower requested)

  -- A record of the list that matches, and better than which no other matches.
  abbrev pub IsBest : List Fields → Fields → Type 0
  IsBest rs r = In r rs × (level r < 4) × ((x : Fields) → In x rs → level r ≤ level x)

  ids :
      (rs : List Fields) (r : Fields)
      → is_empty (keep by_id rs) ≡ false
      → In r (keep by_id rs) ↔ IsBest rs r
  unfolding by_id
  ids rs r e = (
    λ m.
        let h = keep_test by_id rs r m in
        let one : level r ≡ 1 = rw h refl in
        (keep-In by_id r rs m, omega arith, λ x k. ground arith),
    λ (m, lt, best).
        let (x, k, h) = some-In by_id rs e in
        let one : level x ≡ 1 = rw h refl in
        let low : level r ≤ level x = best x k in In-keep by_id r rs m (ground arith),
  )

  names :
      (rs : List Fields) (r : Fields)
      → is_empty (keep by_id rs) ≡ true
      → is_empty (keep by_name rs) ≡ false
      → In r (keep by_name rs) ↔ IsBest rs r
  unfolding by_id by_name
  names rs r d e = (
    λ m.
        let i = keep-In by_name r rs m in
        let h = keep_test by_name rs r m in
        let two : level r ≡ 2 = rw (is_empty_none by_id rs r d i, h) refl in
        (i, omega arith, λ x k. let no_id = is_empty_none by_id rs x d k in ground arith),
    λ (m, lt, best).
        let (x, k, h) = some-In by_name rs e in
        let two : level x ≡ 2 = rw (is_empty_none by_id rs x d k, h) refl in
        let low : level r ≤ level x = best x k in
        let no_id = is_empty_none by_id rs r d m in In-keep by_name r rs m (ground arith),
  )

  parts :
      (rs : List Fields) (r : Fields)
      → is_empty (keep by_id rs) ≡ true
      → is_empty (keep by_name rs) ≡ true
      → In r (keep by_part rs) ↔ IsBest rs r
  unfolding by_id by_name by_part
  parts rs r d e = (
    λ m.
        let i = keep-In by_part r rs m in
        let h = keep_test by_part rs r m in
        let three : level r ≡ 3 =
          rw (is_empty_none by_id rs r d i, is_empty_none by_name rs r e i, h) refl in
        (
          i,
          omega arith,
          λ x k.
              let no_id = is_empty_none by_id rs x d k in
              let no_name = is_empty_none by_name rs x e k in ground arith,
        ),
    λ (m, lt, best).
        let no_id = is_empty_none by_id rs r d m in
        let no_name = is_empty_none by_name rs r e m in In-keep by_part r rs m (ground arith),
  )

  -- A record is selected exactly if it is one of the records, matches, and no other record matches
  -- better.
  pub select_iff :
      (rs : List Fields) (r : Fields) → In r (select repr fields requested rs) ↔ IsBest rs r
  unfolding select by_id by_name by_part
  select_iff rs r = elim (Bool-cases (is_empty (keep by_id rs))) [
    | inr e ↦ rw e (ids rs r e)
    | inl d ↦ elim (Bool-cases (is_empty (keep by_name rs))) [
      | inr e ↦ rw (d, e) (names rs r d e)
      | inl e ↦ rw (d, e) (parts rs r d e)
    ]
  ]
