-- ===== src/Executor/Arguments.antt =====
-- executor.py: what becomes of the path parameters.
use prisma_sdwan_mcp.Value.{Value, Fields, end, field, is_null, truthy}
use prisma_sdwan_mcp.Prelude.Text.{Text, codes, text_eq, text_eq→eq}
use prisma_sdwan_mcp.Prelude.{
  Bool-cases, Option-cases, or_parts, any, all, keep, is_empty, All, In, In-append_left,
  In-append_right, All-append, All-at, ◌≡◌, refl, sym, inl, inr, Bool, true, false, not, ◌&&◌,
  Option, none, some, List, [], ◌∷◌, ◌++◌, map,
}
use prisma_sdwan_mcp.Catalog.{ActionSpec, required_path_parameters, holds}
use prisma_sdwan_mcp.Prelude.Result.{ok}
use prisma_sdwan_mcp.Executor.Paths.{
  key_texts, clean_paths, value_at, is_blank, absent_from, validate_paths,
}
use prisma_sdwan_mcp.Executor.Binding.{
  Param, Kwargs, SdkCall, is_variadic, Bound, is_post, takes_body, bind_other, bind_param,
  bind_params, is_missing, accept_bound, usable_params, nothing_bound, signature_call,
}

is_empty-keep :
    {A : Type 0} (p : A → Bool) (a : A) (xs : List A)
    → is_empty (keep p xs) ≡ true
    → In a xs
    → p a ≡ false
is_empty-keep p a [] h m = absurd m
is_empty-keep p a (x ∷ xs) h (inl e) = elim (Bool-cases (p x)) [
  | inl k ↦ cc (rw k at h)
  | inr k ↦ rw e k
]
is_empty-keep p a (x ∷ xs) h (inr m) = elim (Bool-cases (p x)) [
  | inl k ↦ cc (rw k at h)
  | inr k ↦ is_empty-keep p a xs (rw k at h) m
]

not-false : (b : Bool) → not b ≡ false → b ≡ true
not-false true h = refl
not-false false h = cc

holds-In : (n : Text) (ns : List Text) → holds n ns ≡ true → In n ns
unfolding holds
holds-In n [] h = cc
holds-In n (m ∷ ns) h = elim (or_parts (text_eq m n) (holds n ns) h) [
  | inl e ↦ inl (sym (text_eq→eq m n e))
  | inr e ↦ inr (holds-In n ns e)
]

-- Arguments that pass: the supplied ones without None; each name that is required has a value that
-- is not blank, and each name is one of the action's.
abbrev pub ArePaths : ActionSpec → Fields → Fields → Type 0
ArePaths action supplied cleaned =
    (cleaned ≡ clean_paths supplied)
    × ((n : Text) → In n (required_path_parameters action) → is_blank (value_at n cleaned) ≡ false)
    × ((n : Text) → In n (key_texts cleaned) → In n (map (λ p. p.name) action.path_parameters))

-- `_validate_paths` lets pass only the supplied values that are not None, under names of the action,
-- with a value that is not blank for each name that is required.
pub validate_paths-ArePaths :
    (action : ActionSpec) (supplied cleaned : Fields)
    → validate_paths action supplied ≡ ok cleaned
    → ArePaths action supplied cleaned
unfolding validate_paths absent_from
validate_paths-ArePaths action supplied cleaned h =
    let kept = clean_paths supplied in
    let names = map (λ p. p.name) action.path_parameters in
    let blank : Text → Bool = λ n. is_blank (value_at n kept) in
    let other : Text → Bool = λ n. not (holds n names) in
    elim (Bool-cases (is_empty (keep blank (required_path_parameters action)))) [
      | inr e ↦ cc (rw (validate_paths, e) at h)
      | inl e ↦ elim (Bool-cases (is_empty (keep other (key_texts kept)))) [
        | inr f ↦ cc (rw (validate_paths, absent_from, e, f) at h)
        | inl f ↦
            let same : kept ≡ cleaned = cc (rw (validate_paths, absent_from, e, f) at h) in
            rw (← same) (
              refl,
              λ n m. is_empty-keep blank n (required_path_parameters action) e m,
              λ n m.
                  holds-In n names
                    (not-false (holds n names) (is_empty-keep other n (key_texts kept) f m)),
            )
      ]
    ]

value_at-In : (n : Text) (fs : Fields) (v : Value) → value_at n fs ≡ some v → In n (key_texts fs)
unfolding value_at key_texts
value_at-In n end v h = cc
value_at-In n (field k w fs) v h = elim (Bool-cases (text_eq (codes k) n)) [
  | inl e ↦ inl (sym (text_eq→eq (codes k) n e))
  | inr e ↦ inr (value_at-In n fs v (rw (value_at, e) at h))
]

module _ (action : ActionSpec) (paths : Fields) (body : Value) where
  -- Each name that counts as bound has its value among the keyword arguments.
  abbrev IsBound : Bound → Type 0
  IsBound b =
      All (λ n. (v : Value) × (value_at n paths ≡ some v) × In (n, v) b.kwargs) b.bound_paths

  IsBound-more :
      (d e : Kwargs) (ns : List Text)
      → All (λ n. (v : Value) × (value_at n paths ≡ some v) × In (n, v) d) ns
      → All (λ n. (v : Value) × (value_at n paths ≡ some v) × In (n, v) (d ++ e)) ns
  IsBound-more d e [] h = tt
  IsBound-more d e (n ∷ ns) ((v, f, m), h) =
      ((v, f, In-append_left (n, v) d e m), IsBound-more d e ns h)

  bind_other-IsBound :
      (p : Param) (b : Bound) → IsBound b → IsBound (bind_other action paths body p b)
  unfolding bind_other
  bind_other-IsBound p b h =
      elim (Bool-cases (truthy action.api_version && text_eq p.name (codes "api_version"))) [
        | inl e ↦
            rw (bind_other, e)
              (IsBound-more b.kwargs ((p.name, action.api_version) ∷ []) b.bound_paths h)
        | inr e ↦ elim (Bool-cases (takes_body action paths body b.body_bound p)) [
          | inl f ↦
              rw (bind_other, e, f) (IsBound-more b.kwargs ((p.name, body) ∷ []) b.bound_paths h)
          | inr f ↦ rw (bind_other, e, f) h
        ]
      ]

  bind_param-IsBound :
      (p : Param) (b : Bound) → IsBound b → IsBound (bind_param action paths body p b)
  unfolding bind_param
  bind_param-IsBound p b h = elim (Option-cases (value_at p.name paths)) [
    | inl e ↦ rw (bind_param, e) (bind_other-IsBound p b h)
    | inr (v, e) ↦
        rw (bind_param, e)
          (All-append
            (λ n.
              (w : Value) × (value_at n paths ≡ some w) × In (n, w) (b.kwargs ++ (p.name, v) ∷ []))
            b.bound_paths (p.name ∷ []) (IsBound-more b.kwargs ((p.name, v) ∷ []) b.bound_paths h)
            ((v, e, In-append_right (p.name, v) b.kwargs ((p.name, v) ∷ []) (inl refl)), tt))
  ]

  bind_params-IsBound :
      (ps : List Param) (b : Bound) → IsBound b → IsBound (bind_params action paths body ps b)
  unfolding bind_params
  bind_params-IsBound [] b h = h
  bind_params-IsBound (p ∷ ps) b h =
      bind_params-IsBound ps (bind_param action paths body p b) (bind_param-IsBound p b h)

  accept_bound-In :
      (ps : List Param) (b : Bound) (c : SdkCall) (n : Text) (v : Value)
      → IsBound b
      → accept_bound action paths body ps b ≡ some c
      → value_at n paths ≡ some v
      → In (n, v) c.kwargs
  unfolding accept_bound absent_from
  accept_bound-In ps b c n v h k e =
      let other : Text → Bool = λ m. not (holds m b.bound_paths) in
      elim (Bool-cases (any (is_missing action paths body b.kwargs) ps)) [
        | inl f ↦ cc (rw (accept_bound, f) at k)
        | inr f ↦ elim (Bool-cases (is_empty (keep other (key_texts paths)))) [
          | inr g ↦ cc (rw (accept_bound, absent_from, f, g) at k)
          | inl g ↦
              let held =
                not-false (holds n b.bound_paths)
                  (is_empty-keep other n (key_texts paths) g (value_at-In n paths v e)) in
              let (w, l, m) =
                All-at (λ i. (w : Value) × (value_at i paths ≡ some w) × In (i, w) b.kwargs) n
                  b.bound_paths h (holds-In n b.bound_paths held) in
              let same : w ≡ v = cc in
              elim (Bool-cases (is_post action && not (is_null body) && not b.body_bound)) [
                | inl o ↦ cc (rw (accept_bound, absent_from, f, g, o) at k)
                | inr o ↦
                    let made : record { args = []; kwargs = b.kwargs } ≡ c =
                      cc (rw (accept_bound, absent_from, f, g, o) at k) in
                    rw (← made, ← same) m
              ]
        ]
      ]

  -- If `_signature_call` gives a call, each path parameter is among its keyword arguments, with its
  -- value: none is dropped.
  pub signature_call-In :
      (signature : Option (List Param)) (c : SdkCall) (n : Text) (v : Value)
      → signature_call action paths body signature ≡ some c
      → value_at n paths ≡ some v
      → In (n, v) c.kwargs
  unfolding signature_call
  signature_call-In none c n v h e = cc
  signature_call-In (some all_params) c n v h e =
      let params = usable_params action paths body all_params in
      elim (Bool-cases (all is_variadic params)) [
        | inl f ↦ cc (rw (signature_call, f) at h)
        | inr f ↦
            let nothing = nothing_bound action paths body in
            accept_bound-In params (bind_params action paths body params nothing) c n v
              (bind_params-IsBound params nothing tt) (rw (signature_call, f) at h) e
      ]
