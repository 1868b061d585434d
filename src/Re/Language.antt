-- ===== src/Re/Language.antt =====
-- The language of a pattern, and the proof that the matcher decides it: what `ends` finds are
-- exactly the texts that remain behind a word of the language.
use prisma_sdwan_mcp.Prelude.{
  Bool-cases, length, any, keep, is_empty, In, length-append, In-append_left, In-append_right,
  In-append_cases, In-keep, keep-In, flat_map, In-flat_map, flat_map-In, ℕ, zero, suc, ◌≤◌, ◌≡◌,
  refl, sym, ap, ◌∙◌, subst, ◌↔◌, ◌⊎◌, inl, inr, Bool, true, List, [], ◌∷◌, ◌++◌, append-nil,
  append_assoc, arith,
}
use prisma_sdwan_mcp.Prelude.Text.{Text}
use prisma_sdwan_mcp.Re.{
  Re, eps, chr, seq, alt, star, lazy, opt, lit, shorter, rounds, lazy_rounds, ends, fullmatch,
}

pub data Matches : Re → Text → Type 0 where
  m_eps : Matches eps []
  m_chr : {p : ℕ → Bool} {c : ℕ} → p c ≡ true → Matches (chr p) (c ∷ [])
  m_seq : {a b : Re} {u v w : Text} → Matches a u → Matches b v → w ≡ u ++ v → Matches (seq a b) w
  m_left : {a b : Re} {w : Text} → Matches a w → Matches (alt a b) w
  m_right : {a b : Re} {w : Text} → Matches b w → Matches (alt a b) w
  m_star_nil : {r : Re} → Matches (star r) []
  m_star :
      {r : Re} {u v w : Text} → Matches r u → Matches (star r) v → w ≡ u ++ v → Matches (star r) w
  m_lazy_nil : {r : Re} → Matches (lazy r) []
  m_lazy :
      {r : Re} {u v w : Text} → Matches r u → Matches (lazy r) v → w ≡ u ++ v → Matches (lazy r) w

-- `rest` remains of `s` behind a word of `r`.
abbrev pub Leaves : Re → Text → Text → Type 0
Leaves r s rest = (w : Text) × Matches r w × (s ≡ w ++ rest)

module _ (r : Re) (sound : (s rest : Text) → In rest (ends r s) → Leaves r s rest) where
  rounds_sound : (f : ℕ) (s rest : Text) → In rest (rounds (ends r) f s) → Leaves (star r) s rest
  unfolding rounds
  rounds_sound zero s rest (inl e) = ([], m_star_nil, sym e)
  rounds_sound zero s rest (inr m) = absurd m
  rounds_sound (suc f) s rest m =
      elim (In-append_cases rest (flat_map (rounds (ends r) f) (keep (shorter s) (ends r s)))
        (s ∷ []) m) [
          | inl h ↦
              let (mid, k, l) =
                flat_map-In (rounds (ends r) f) rest (keep (shorter s) (ends r s)) h in
              let (u, mu, eu) = sound s mid (keep-In (shorter s) mid (ends r s) k) in
              let (v, mv, ev) = rounds_sound f mid rest l in
              (u ++ v, m_star mu mv refl, eu ∙ (ap (λ t. u ++ t) ev ∙ sym (append_assoc u v rest)))
          | inr (inl e) ↦ ([], m_star_nil, sym e)
          | inr (inr n) ↦ absurd n
        ]

  lazy_rounds_sound :
      (f : ℕ) (s rest : Text) → In rest (lazy_rounds (ends r) f s) → Leaves (lazy r) s rest
  unfolding lazy_rounds
  lazy_rounds_sound zero s rest (inl e) = ([], m_lazy_nil, sym e)
  lazy_rounds_sound zero s rest (inr m) = absurd m
  lazy_rounds_sound (suc f) s rest (inl e) = ([], m_lazy_nil, sym e)
  lazy_rounds_sound (suc f) s rest (inr h) =
      let (mid, k, l) = flat_map-In (lazy_rounds (ends r) f) rest (keep (shorter s) (ends r s)) h in
      let (u, mu, eu) = sound s mid (keep-In (shorter s) mid (ends r s) k) in
      let (v, mv, ev) = lazy_rounds_sound f mid rest l in
      (u ++ v, m_lazy mu mv refl, eu ∙ (ap (λ t. u ++ t) ev ∙ sym (append_assoc u v rest)))

-- Every end that the matcher finds is the end of a word of the pattern.
pub ends_sound : (r : Re) (s rest : Text) → In rest (ends r s) → Leaves r s rest
unfolding ends
ends_sound eps s rest (inl e) = ([], m_eps, sym e)
ends_sound eps s rest (inr m) = absurd m
ends_sound (chr p) [] rest m = absurd m
ends_sound (chr p) (c ∷ s) rest m = elim (Bool-cases (p c)) [
  | inl h ↦ elim (rw h at m) [
    | inl e ↦ (c ∷ [], m_chr h, ap (λ t. c ∷ t) (sym e))
    | inr n ↦ absurd n
  ]
  | inr h ↦ absurd (rw h at m)
]
ends_sound (seq a b) s rest m =
    let (mid, k, l) = flat_map-In (ends b) rest (ends a s) m in
    let (u, mu, eu) = ends_sound a s mid k in
    let (v, mv, ev) = ends_sound b mid rest l in
    (u ++ v, m_seq mu mv refl, eu ∙ (ap (λ t. u ++ t) ev ∙ sym (append_assoc u v rest)))
ends_sound (alt a b) s rest m = elim (In-append_cases rest (ends a s) (ends b s) m) [
  | inl h ↦ let (w, mw, e) = ends_sound a s rest h in (w, m_left mw, e)
  | inr h ↦ let (w, mw, e) = ends_sound b s rest h in (w, m_right mw, e)
]
ends_sound (star r) s rest m = rounds_sound r (ends_sound r) (length s) s rest m
ends_sound (lazy r) s rest m = lazy_rounds_sound r (ends_sound r) (length s) s rest m

-- Whatever a round can consume, the loop with enough fuel finds every end of the repetition.
rounds_complete :
    {r : Re}
    → ((u rest : Text) → Matches r u → In rest (ends r (u ++ rest)))
    → (f : ℕ) (rest : Text) {w : Text} → Matches (star r) w
    → length w ≤ f
    → In rest (rounds (ends r) f (w ++ rest))
unfolding rounds shorter
rounds_complete complete zero rest m_star_nil h = inl refl
rounds_complete {r} complete (suc f) rest m_star_nil h =
    In-append_right rest (flat_map (rounds (ends r) f) (keep (shorter rest) (ends r rest)))
      (rest ∷ []) (inl refl)
rounds_complete complete f rest (m_star {u = []} {v = v} mu mv e) h =
    rw e (rounds_complete complete f rest mv (rw e at h))
rounds_complete complete zero rest (m_star {u = c ∷ u} {v = v} mu mv e) h =
    absurd (omega (arith, ap (λ (t : Text). length t) e))
rounds_complete {r} complete (suc f) rest (m_star {u = c ∷ u} {v = v} mu mv e) h =
    let whole = c ∷ (u ++ (v ++ rest)) in
    rw (e, append_assoc)
      (In-append_left rest (flat_map (rounds (ends r) f) (keep (shorter whole) (ends r whole)))
        (whole ∷ [])
        (In-flat_map (rounds (ends r) f) rest (v ++ rest) (keep (shorter whole) (ends r whole))
          (In-keep (shorter whole) (v ++ rest) (ends r whole) (complete (c ∷ u) (v ++ rest) mu)
            (ground (arith, length-append u (v ++ rest))))
          (rounds_complete complete f rest mv
            (omega (arith, ap (λ (t : Text). length t) e, length-append u v)))))

lazy_rounds_complete :
    {r : Re}
    → ((u rest : Text) → Matches r u → In rest (ends r (u ++ rest)))
    → (f : ℕ) (rest : Text) {w : Text} → Matches (lazy r) w
    → length w ≤ f
    → In rest (lazy_rounds (ends r) f (w ++ rest))
unfolding lazy_rounds shorter
lazy_rounds_complete complete zero rest m_lazy_nil h = inl refl
lazy_rounds_complete complete (suc f) rest m_lazy_nil h = inl refl
lazy_rounds_complete complete f rest (m_lazy {u = []} {v = v} mu mv e) h =
    rw e (lazy_rounds_complete complete f rest mv (rw e at h))
lazy_rounds_complete complete zero rest (m_lazy {u = c ∷ u} {v = v} mu mv e) h =
    absurd (omega (arith, ap (λ (t : Text). length t) e))
lazy_rounds_complete {r} complete (suc f) rest {w} (m_lazy {u = c ∷ u} {v = v} mu mv e) h =
    let whole = c ∷ (u ++ (v ++ rest)) in
    let split : w ++ rest ≡ whole = rw (e, append_assoc) in
    subst (λ t. In rest (lazy_rounds (ends r) (suc f) t)) (sym split)
      (inr (
        In-flat_map (lazy_rounds (ends r) f) rest (v ++ rest) (keep (shorter whole) (ends r whole))
          (In-keep (shorter whole) (v ++ rest) (ends r whole) (complete (c ∷ u) (v ++ rest) mu)
            (ground (arith, length-append u (v ++ rest))))
          (lazy_rounds_complete complete f rest mv
            (omega (arith, ap (λ (t : Text). length t) e, length-append u v)))))

length-le-append : (w rest : Text) → length w ≤ length (w ++ rest)
length-le-append w rest = omega (arith, length-append w rest)

-- Every word of the pattern is found, whatever stands behind it.
pub ends_complete : (r : Re) (w rest : Text) → Matches r w → In rest (ends r (w ++ rest))
unfolding ends
ends_complete eps w rest m_eps = inl refl
ends_complete (chr p) w rest (m_chr h) = rw h (inl refl)
ends_complete (seq a b) w rest (m_seq {u = u} {v = v} mu mv e) =
    rw (e, append_assoc)
      (In-flat_map (ends b) rest (v ++ rest) (ends a (u ++ (v ++ rest)))
        (ends_complete a u (v ++ rest) mu) (ends_complete b v rest mv))
ends_complete (alt a b) w rest (m_left mw) =
    In-append_left rest (ends a (w ++ rest)) _ (ends_complete a w rest mw)
ends_complete (alt a b) w rest (m_right mw) =
    In-append_right rest (ends a (w ++ rest)) _ (ends_complete b w rest mw)
ends_complete (star r) w rest mw =
    rounds_complete (ends_complete r) (length (w ++ rest)) rest mw (length-le-append w rest)
ends_complete (lazy r) w rest mw =
    lazy_rounds_complete (ends_complete r) (length (w ++ rest)) rest mw (length-le-append w rest)

any-is_empty : (l : List Text) → any is_empty l ≡ true → In [] l
any-is_empty [] h = cc
any-is_empty ([] ∷ l) h = inl refl
any-is_empty ((c ∷ s) ∷ l) h = inr (any-is_empty l h)

is_empty-any : (l : List Text) → In [] l → any is_empty l ≡ true
is_empty-any [] m = absurd m
is_empty-any ([] ∷ l) m = refl
is_empty-any ((c ∷ s) ∷ l) (inl e) = cc
is_empty-any ((c ∷ s) ∷ l) (inr m) = is_empty-any l m

-- A full match exists exactly when the text is a word of the pattern's language.
pub fullmatch_iff : (r : Re) (s : Text) → (fullmatch r s ≡ true) ↔ Matches r s
unfolding fullmatch
fullmatch_iff r s = (
  λ h. let (w, mw, e) = ends_sound r s [] (any-is_empty (ends r s) h) in rw (e, append-nil) mw,
  λ m. is_empty-any (ends r s) (rw (append-nil s) at (ends_complete r s [] m)),
)

-- Words of a sequence, of a literal text and of a class, taken apart.
pub seq_parts :
    {a b : Re} {w : Text}
    → Matches (seq a b) w
    → (u v : Text) × Matches a u × Matches b v × (w ≡ u ++ v)
seq_parts (m_seq {u = u} {v = v} mu mv e) = (u, v, mu, mv, e)

pub chr_word : {p : ℕ → Bool} {w : Text} → Matches (chr p) w → (c : ℕ) × (p c ≡ true) × (w ≡ c ∷ [])
chr_word (m_chr {c = c} h) = (c, h, refl)

pub eps_word : {w : Text} → Matches eps w → w ≡ []
eps_word m_eps = refl

pub lit_word : (t : Text) {w : Text} → Matches (lit t) w → w ≡ t
lit_word [] m = eps_word m
lit_word (c ∷ t) m =
    let (u, v, mu, mv, e) = seq_parts m in
    let (d, h, k) = chr_word mu in
    let same : d ≡ c = ground arith in e ∙ (rw (k, lit_word t mv, same) refl)

pub opt_parts : {a : Re} {w : Text} → Matches (opt a) w → Matches a w ⊎ (w ≡ [])
opt_parts (m_left m) = inl m
opt_parts (m_right m) = inr (eps_word m)
