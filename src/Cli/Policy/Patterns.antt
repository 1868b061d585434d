-- ===== src/Cli/Policy/Patterns.antt =====
-- What the words of the command patterns look like: the family's name stands first, a port last.
use prisma_sdwan_mcp.Prelude.{
  ◌==◌, All, ℕ, zero, suc, String, ◌≡◌, refl, sym, ap, ◌∙◌, inl, inr, Bool, true, false, none, some,
  [], ◌∷◌, ◌++◌, append_assoc, arith,
}
use prisma_sdwan_mcp.Prelude.Text.{Text, codes, in_range, is_space, is_digit}
use prisma_sdwan_mcp.Re.{Re, chr, seq, up_to}
use prisma_sdwan_mcp.Re.Language.{Matches, seq_parts, chr_word, eps_word, lit_word, opt_parts}
use prisma_sdwan_mcp.Cli.Policy.{
  char, Family, dump, inspect, ping, tcpping, dig, family_name, read_only_pattern, port,
  tcpping_pattern, pattern_of, after_last,
}

up_to_digits :
    (n : ℕ) {w : Text} → Matches (up_to n (chr is_digit)) w → All (λ c. is_digit c ≡ true) w
up_to_digits zero m = rw (eps_word m) tt
up_to_digits (suc n) m = elim (opt_parts m) [
  | inl k ↦
      let (u, v, mu, mv, e) = seq_parts k in
      let (c, h, l) = chr_word mu in rw (e, l) (h, up_to_digits n mv)
  | inr e ↦ rw e tt
]

-- A word of `_PORT` is a digit and further digits.
pub port_digits : {w : Text} → Matches port w → All (λ c. is_digit c ≡ true) w
port_digits m =
    let (u, v, mu, mv, e) = seq_parts m in
    let (c, h, l) = chr_word mu in rw (e, l) (h, up_to_digits 4 mv)

not_colon_of_digit : (c : ℕ) → is_digit c ≡ true → (c == b':') ≡ false
unfolding is_digit in_range
not_colon_of_digit c h = ground arith

after_last-none : (s : Text) → All (λ c. is_digit c ≡ true) s → after_last b':' s ≡ none
unfolding after_last
after_last-none [] h = refl
after_last-none (c ∷ s) (d, h) = rw (after_last-none s h, not_colon_of_digit c d)

-- Digits behind a colon are what stands behind the last colon.
pub after_last-digits :
    (pre p : Text) → All (λ c. is_digit c ≡ true) p → after_last b':' (pre ++ b':' ∷ p) ≡ some p
unfolding after_last
after_last-digits [] p h = rw (after_last-none p h)
after_last-digits (c ∷ pre) p h = rw (after_last-digits pre p h)

abbrev EndsInPort : Text → Type 0
EndsInPort w = (pre p : Text) × (w ≡ pre ++ b':' ∷ p) × All (λ c. is_digit c ≡ true) p

-- What ends the second part of a sequence ends the whole.
behind :
    (a b : Re)
    → ((v : Text) → Matches b v → EndsInPort v)
    → (w : Text) → Matches (seq a b) w
    → EndsInPort w
behind a b last w m =
    let (u, v, mu, mv, e) = seq_parts m in
    let (pre, p, l, ds) = last v mv in
    (u ++ pre, p, rw (e, l) (sym (append_assoc u pre (b':' ∷ p))), ds)

colon_port : (w : Text) → Matches (seq (char b':') port) w → EndsInPort w
colon_port w m =
    let (u, v, mu, mv, e) = seq_parts m in
    let (c, h, l) = chr_word mu in
    let colon : c ≡ b':' = ground arith in ([], v, rw (e, l, colon) refl, port_digits mv)

-- A word of the `tcpping` form ends in a colon and a port.
pub tcpping_port : (w : Text) → Matches tcpping_pattern w → EndsInPort w
tcpping_port = behind _ _ (behind _ _ (behind _ _ (behind _ _ colon_port)))

-- The word begins with a character that passes the test.
abbrev Headed : (ℕ → Bool) → Text → Type 0
Headed p w = (c : ℕ) × (rest : Text) × (p c ≡ true) × (w ≡ c ∷ rest)

chr-Headed : (p : ℕ → Bool) (w : Text) → Matches (chr p) w → Headed p w
chr-Headed p w m = let (c, h, e) = chr_word m in (c, [], h, e)

seq-Headed :
    (p : ℕ → Bool) (a b : Re)
    → ((u : Text) → Matches a u → Headed p u)
    → (w : Text) → Matches (seq a b) w
    → Headed p w
seq-Headed p a b first w m =
    let (u, v, mu, mv, e) = seq_parts m in
    let (c, rest, h, l) = first u mu in (c, rest ++ v, h, rw (e, l) refl)

-- A literal text and a headed word behind it.
abbrev Named : String → Text → Type 0
Named name w = (c : ℕ) × (rest : Text) × (is_space c ≡ true) × (w ≡ codes name ++ c ∷ rest)

read_only-Named :
    (f : Family) (w : Text) → Matches (read_only_pattern f) w → Named (family_name f) w
read_only-Named f w m =
    let (u, v, mu, mv, e) = seq_parts m in
    let (c, rest, h, l) =
      seq-Headed is_space _ _
        (seq-Headed is_space _ _
          (seq-Headed is_space _ _ (seq-Headed is_space _ _ (chr-Headed is_space))))
        v mv in
    (c, rest, h, rw (e, l, lit_word (codes (family_name f)) mu) refl)

-- Every word of a form begins with the family's name and a space.
pub name_first : (f : Family) (w : Text) → Matches (pattern_of f) w → Named (family_name f) w
unfolding pattern_of is_space
name_first dump w m = read_only-Named dump w m
name_first inspect w m = read_only-Named inspect w m
name_first ping w m =
    let (u, v, mu, mv, e) = seq_parts m in
    (32, v, refl, e ∙ ap (λ t. t ++ v) (lit_word (codes "ping ") mu))
name_first tcpping w m =
    let (u, v, mu, mv, e) = seq_parts m in
    (32, v, refl, e ∙ ap (λ t. t ++ v) (lit_word (codes "tcpping ") mu))
name_first dig w m =
    let (u, v, mu, mv, e) = seq_parts m in
    (32, v, refl, e ∙ ap (λ t. t ++ v) (lit_word (codes "dig ") mu))
