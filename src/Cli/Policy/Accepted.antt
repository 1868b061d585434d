-- ===== src/Cli/Policy/Accepted.antt =====
-- A command is accepted exactly when it is clean text, a word of one of the five forms and, if it
-- is a `tcpping`, its port is in range.
use prisma_sdwan_mcp.Prelude.{
  leb→le, le→leb, Bool-cases, and_parts, any, All, In, ℕ, ◌≤◌, ◌≡◌, refl, sym, ◌∙◌, subst, ◌≢◌, ◌↔◌,
  inl, inr, Bool, true, false, List, [], ◌∷◌, ◌++◌, arith,
}
use prisma_sdwan_mcp.Prelude.Text.{Text, codes, is_digit, text_eq, text_eq→eq, text_eq_refl, strip}
use prisma_sdwan_mcp.Prelude.Int.{decimal_from}
use prisma_sdwan_mcp.Re.{fullmatch}
use prisma_sdwan_mcp.Re.Language.{Matches, fullmatch_iff}
use prisma_sdwan_mcp.Cli.Policy.{
  Family, dump, inspect, ping, tcpping, dig, family_name, pattern_of, families, is_control,
  after_last, port_group, port_ok, first_match, validate_text,
}
use prisma_sdwan_mcp.Cli.Policy.Patterns.{after_last-digits, tcpping_port, name_first}

-- The text ends in a colon and digits whose value is a port number.
abbrev pub PortInRange : Family → Text → Type 0
PortInRange tcpping c =
    (pre p : Text) × (c ≡ pre ++ b':' ∷ p)
    × All (λ d. is_digit d ≡ true) p
    × (1 ≤ decimal_from 0 p)
    × (decimal_from 0 p ≤ 65535)
PortInRange _ c = Unit

pub record IsApproved (c : Text) : Type 0 where
  pub family : Family
  pub word : Matches (pattern_of family) c
  pub port_in_range : PortInRange family c
  pub not_empty : c ≢ []
  pub trimmed : strip c ≡ c
  pub printable : All (λ d. is_control d ≡ false) c

-- What the loop found, if it approved.
abbrev Found : Text → List Family → Type 0
Found c fs =
    (f : Family) × In f fs × (fullmatch (pattern_of f) c ≡ true) × (port_ok (port_group f c) ≡ true)

first_match_sound : (c : Text) (fs : List Family) → (first_match c fs).allowed ≡ true → Found c fs
unfolding first_match
first_match_sound c [] h = cc
first_match_sound c (f ∷ fs) h = elim (Bool-cases (fullmatch (pattern_of f) c)) [
  | inl m ↦ elim (Bool-cases (port_ok (port_group f c))) [
    | inl k ↦ (f, inl refl, m, k)
    | inr k ↦ cc (rw (m, k) at h)
  ]
  | inr m ↦ let (g, i, n, k) = first_match_sound c fs (rw m at h) in (g, inr i, n, k)
]

port_ok_sound :
    (f : Family) (c : Text)
    → Matches (pattern_of f) c
    → port_ok (port_group f c) ≡ true
    → PortInRange f c
unfolding pattern_of port_ok port_group
port_ok_sound tcpping c m h =
    let (pre, p, e, ds) = tcpping_port c m in
    let (lo, hi) = and_parts _ _ (rw (e, after_last-digits pre p ds) at h) in
    (pre, p, e, ds, leb→le _ _ lo, leb→le _ _ hi)
port_ok_sound dump c m h = tt
port_ok_sound inspect c m h = tt
port_ok_sound ping c m h = tt
port_ok_sound dig c m h = tt

any-false : (p : ℕ → Bool) (s : Text) → any p s ≡ false → All (λ c. p c ≡ false) s
any-false p [] h = tt
any-false p (c ∷ s) h = (ground arith, any-false p s (ground arith))

-- An accepted command meets every condition of `IsApproved`.
pub validate_text_sound : (c : Text) → (validate_text c).allowed ≡ true → IsApproved c
unfolding validate_text
validate_text_sound [] h = cc
validate_text_sound (x ∷ s) h = elim (Bool-cases (text_eq (x ∷ s) (strip (x ∷ s)))) [
  | inl t ↦ elim (Bool-cases (any is_control (x ∷ s))) [
    | inl k ↦ cc (rw (t, k) at h)
    | inr k ↦
        let (f, i, m, p) = first_match_sound (x ∷ s) families (rw (t, k) at h) in
        let word = (fullmatch_iff (pattern_of f) (x ∷ s)).0 m in
        record {
          family = f;
          word = word;
          port_in_range = port_ok_sound f (x ∷ s) word p;
          not_empty = λ e. cc;
          trimmed = sym (text_eq→eq (x ∷ s) (strip (x ∷ s)) t);
          printable = any-false is_control (x ∷ s) k;
        }
  ]
  | inr t ↦ cc (rw t at h)
]

-- The first character of a form tells `tcpping` from the others.
same_head :
    (f : Family) (r s : Text) → codes (family_name f) ++ r ≡ codes "tcpping" ++ s → f ≡ tcpping
unfolding codes
same_head tcpping r s e = refl
same_head dump r s e = absurd (ground arith)
same_head inspect r s e = absurd (ground arith)
same_head ping r s e = absurd (ground arith)
same_head dig r s e = absurd (ground arith)

tcpping_alone :
    (f : Family) (c : Text)
    → Matches (pattern_of f) c
    → Matches (pattern_of tcpping) c
    → f ≡ tcpping
tcpping_alone f c m n =
    let (x, r, h, e) = name_first f c m in
    let (y, s, k, l) = name_first tcpping c n in same_head f (x ∷ r) (y ∷ s) (sym e ∙ l)

PortInRange-ok : (c : Text) → PortInRange tcpping c → port_ok (after_last b':' c) ≡ true
unfolding port_ok
PortInRange-ok c (pre, p, e, ds, lo, hi) =
    rw (e, after_last-digits pre p ds, le→leb _ _ lo, le→leb _ _ hi) refl

-- Every form that an approved command matches has its port in range.
ports_ok :
    (c : Text) (good : IsApproved c) (g : Family)
    → Matches (pattern_of g) c
    → port_ok (port_group g c) ≡ true
unfolding port_ok port_group
ports_ok c good tcpping m =
    PortInRange-ok c
      (subst (λ f. PortInRange f c) (tcpping_alone good.family c good.word m) good.port_in_range)
ports_ok c good dump m = refl
ports_ok c good inspect m = refl
ports_ok c good ping m = refl
ports_ok c good dig m = refl

first_match_complete :
    (c : Text) (fs : List Family) (f : Family)
    → ((g : Family) → Matches (pattern_of g) c → port_ok (port_group g c) ≡ true)
    → In f fs
    → Matches (pattern_of f) c
    → (first_match c fs).allowed ≡ true
unfolding first_match
first_match_complete c [] f ports i m = absurd i
first_match_complete c (g ∷ fs) f ports i m = elim (Bool-cases (fullmatch (pattern_of g) c)) [
  | inl h ↦ rw (h, ports g ((fullmatch_iff (pattern_of g) c).0 h)) refl
  | inr h ↦ elim i [
    | inl e ↦
        let word : fullmatch (pattern_of g) c ≡ true =
          rw (← e) ((fullmatch_iff (pattern_of f) c).1 m) in
        cc
    | inr j ↦ rw h (first_match_complete c fs f ports j m)
  ]
]

In-families : (f : Family) → In f families
In-families dump = inl refl
In-families inspect = inr (inl refl)
In-families ping = inr (inr (inl refl))
In-families tcpping = inr (inr (inr (inl refl)))
In-families dig = inr (inr (inr (inr (inl refl))))

any-of-All : (p : ℕ → Bool) (s : Text) → All (λ c. p c ≡ false) s → any p s ≡ false
any-of-All p [] h = refl
any-of-All p (c ∷ s) (e, h) = rw (e, any-of-All p s h) refl

validate_text_complete : (c : Text) → IsApproved c → (validate_text c).allowed ≡ true
unfolding validate_text
validate_text_complete [] good = absurd (good.not_empty refl)
validate_text_complete (x ∷ s) good =
    let c = x ∷ s in
    rw (good.trimmed, text_eq_refl c, any-of-All is_control c good.printable)
      (first_match_complete c families good.family (ports_ok c good) (In-families good.family)
        good.word)

-- The policy accepts exactly the commands that `IsApproved` describes.
pub allowed_iff : (c : Text) → ((validate_text c).allowed ≡ true) ↔ IsApproved c
allowed_iff c = (validate_text_sound c, validate_text_complete c)
