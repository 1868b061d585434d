-- ===== src/Cli/Policy/Characters.antt =====
-- Which characters an accepted command can hold, and what can stand behind a pipe.
use prisma_sdwan_mcp.Prelude.{
  ◌==◌, ==→eq, Bool-cases, and_parts, or_parts, all, All, In, All-at, all_sound, ℕ, ◌≡◌, refl, sym,
  inl, inr, Bool, true, false, not, ◌||◌, [], ◌∷◌, arith,
}
use prisma_sdwan_mcp.Prelude.Text.{Text, codes, in_range, is_space, is_digit, is_alnum}
use prisma_sdwan_mcp.Re.{Re, chr, seq, star, plus, lit}
use prisma_sdwan_mcp.Re.Alphabet.{Over, Matches-Over, lit-Over}
use prisma_sdwan_mcp.Cli.Policy.Accepted.{validate_text_sound}
use prisma_sdwan_mcp.Cli.Policy.{
  one_of, space, safe_char, safe_argument, grep_char, grep_argument, grep_flag, char, Family, dump,
  inspect, ping, tcpping, dig, family_name, read_only_pattern, port, pattern_of, is_control,
  validate_text,
}

-- The characters that the patterns name, the pipe left out.
unfoldable pub named : ℕ → Bool
named c = grep_char c || is_space c || c == b'"'

one_of-In : (s : Text) (c : ℕ) → one_of s c ≡ true → In c s
unfolding one_of
one_of-In [] c h = cc
one_of-In (d ∷ s) c h = elim (or_parts (d == c) (one_of s c) h) [
  | inl e ↦ inl (sym (==→eq d c e))
  | inr k ↦ inr (one_of-In s c k)
]

alnum-grep : (c : ℕ) → is_alnum c ≡ true → grep_char c ≡ true
unfolding grep_char
alnum-grep c h = rw h

digit-alnum : (c : ℕ) → is_digit c ≡ true → is_alnum c ≡ true
unfolding is_alnum is_digit
digit-alnum c h = ground arith

safe-grep : (c : ℕ) → safe_char c ≡ true → grep_char c ≡ true
unfolding grep_char safe_char one_of codes
safe-grep c h = ground arith

flag-alnum : (c : ℕ) → grep_flag c ≡ true → is_alnum c ≡ true
unfolding grep_flag one_of codes is_alnum in_range
flag-alnum c h = ground arith

abbrev pub IsDiagnostic : Family → Type 0
IsDiagnostic dump = ⊥
IsDiagnostic inspect = ⊥
IsDiagnostic _ = Unit

abbrev pub filter_tail : Re
filter_tail = seq (plus space) (
    seq (lit (codes "grep")) (
      seq (star (seq (plus space) (seq (char b'-') (chr grep_flag))))
        (seq (plus space) (seq grep_argument (star (seq (plus space) grep_argument))))))

pub named-name : (f : Family) → all named (codes (family_name f)) ≡ true
unfolding named grep_char is_alnum is_space one_of codes in_range
named-name dump = refl
named-name inspect = refl
named-name ping = refl
named-name tcpping = refl
named-name dig = refl

-- `forbidden` holds no character that the patterns name.
module _ (forbidden : Text) (apart : all (λ c. not (named c)) forbidden ≡ true) where
  abbrev pub Absent : ℕ → Type 0
  Absent c = one_of forbidden c ≡ false

  named-Absent : (c : ℕ) → named c ≡ true → Absent c
  named-Absent c h = elim (Bool-cases (one_of forbidden c)) [
    | inl k ↦
        let n : not (named c) ≡ true =
          All-at (λ d. not (named d) ≡ true) c forbidden
            (all_sound (λ d. not (named d)) forbidden apart) (one_of-In forbidden c k) in
        cc (rw h at n)
    | inr k ↦ k
  ]

  space-Absent : (c : ℕ) → is_space c ≡ true → Absent c
  unfolding named
  space-Absent c h = named-Absent c (ground arith)

  grep-Absent : (c : ℕ) → grep_char c ≡ true → Absent c
  unfolding named
  grep-Absent c h = named-Absent c (ground arith)

  alnum-Absent : (c : ℕ) → is_alnum c ≡ true → Absent c
  alnum-Absent c h = grep-Absent c (alnum-grep c h)

  safe-Absent : (c : ℕ) → safe_char c ≡ true → Absent c
  safe-Absent c h = grep-Absent c (safe-grep c h)

  digit-Absent : (c : ℕ) → is_digit c ≡ true → Absent c
  digit-Absent c h = alnum-Absent c (digit-alnum c h)

  count-Absent : (c : ℕ) → in_range b'1' b'9' c ≡ true → Absent c
  count-Absent c h = digit-Absent c (unfold is_digit in_range in ground arith)

  word-Absent : (t : Text) → all named t ≡ true → All Absent t
  word-Absent [] h = tt
  word-Absent (c ∷ t) h = let (a, b) = and_parts _ _ h in (named-Absent c a, word-Absent t b)

  argument-Over : Over Absent safe_argument
  argument-Over = (alnum-Absent, safe-Absent)

  grep_argument-Over : Over Absent grep_argument
  grep_argument-Over = (alnum-Absent, grep-Absent)

  pub spaces-Over : Over Absent (plus space)
  spaces-Over = (space-Absent, space-Absent)

  pub arguments-Over : Over Absent (plus (seq (plus space) safe_argument))
  arguments-Over = ((spaces-Over, argument-Over), (spaces-Over, argument-Over))

  pub word-Over : (t : Text) → all named t ≡ true → Over Absent (lit t)
  word-Over t h = lit-Over Absent t (word-Absent t h)

  char-Over : (d : ℕ) → named d ≡ true → Over Absent (char d)
  char-Over d h = λ c e. rw (==→eq c d e) (named-Absent d h)

  flag-Absent : (c : ℕ) → grep_flag c ≡ true → Absent c
  flag-Absent c h = alnum-Absent c (flag-alnum c h)

  port-Over : Over Absent port
  port-Over = (
    digit-Absent,
    ((digit-Absent, ((digit-Absent, ((digit-Absent, ((digit-Absent, tt), tt)), tt)), tt)), tt),
  )

  -- What stands behind the pipe of a filter.
  pub tail-Over : Over Absent filter_tail
  unfolding named grep_char is_alnum is_space one_of codes
  tail-Over = (
    spaces-Over,
    (
      word-Over (codes "grep") refl,
      (
        (spaces-Over, (char-Over b'-' refl, flag-Absent)),
        (spaces-Over, (grep_argument-Over, (spaces-Over, grep_argument-Over))),
      ),
    ),
  )

  pub diagnostic-Over : (f : Family) → IsDiagnostic f → Over Absent (pattern_of f)
  unfolding pattern_of named grep_char is_alnum is_space one_of codes in_range
  diagnostic-Over ping d = (
    word-Over (codes "ping ") refl,
    (
      argument-Over,
      (
        char-Over b' ' refl,
        (
          argument-Over,
          (
            (
              word-Over (codes " args=\"-c ") refl,
              ((count-Absent, word-Over (codes "10") refl), char-Over b'"' refl),
            ),
            tt,
          ),
        ),
      ),
    ),
  )
  diagnostic-Over tcpping d = (
    word-Over (codes "tcpping ") refl,
    (argument-Over, (char-Over b' ' refl, (argument-Over, (char-Over b':' refl, port-Over)))),
  )
  diagnostic-Over dig d = (
    word-Over (codes "dig ") refl,
    (argument-Over, (char-Over b' ' refl, (argument-Over, (char-Over b' ' refl, argument-Over)))),
  )
  diagnostic-Over dump d = absurd d
  diagnostic-Over inspect d = absurd d

  read_only-Over : Absent b'|' → (f : Family) → Over Absent (read_only_pattern f)
  read_only-Over pipe f = (
    word-Over (codes (family_name f)) (named-name f),
    (arguments-Over, ((spaces-Over, ((λ c e. rw (==→eq c b'|' e) pipe), tail-Over)), tt)),
  )

  pattern-Over : Absent b'|' → (f : Family) → Over Absent (pattern_of f)
  unfolding pattern_of
  pattern-Over pipe dump = read_only-Over pipe dump
  pattern-Over pipe inspect = read_only-Over pipe inspect
  pattern-Over pipe ping = diagnostic-Over ping tt
  pattern-Over pipe tcpping = diagnostic-Over tcpping tt
  pattern-Over pipe dig = diagnostic-Over dig tt

-- Shell metacharacters and quotes that no form has a use for.
abbrev pub metacharacters : Text
metacharacters = codes ";&`$<>()\\'!#~@%"

abbrev pub IsPlain : ℕ → Type 0
IsPlain d = (one_of metacharacters d ≡ false) × (is_control d ≡ false)

both-All : (P Q : ℕ → Type 0) (s : Text) → All P s → All Q s → All (λ c. P c × Q c) s
both-All P Q [] h k = tt
both-All P Q (c ∷ s) (p, h) (q, k) = ((p, q), both-All P Q s h k)

metacharacters_apart : all (λ c. not (named c)) metacharacters ≡ true
unfolding named grep_char is_alnum is_space one_of codes
metacharacters_apart = refl

no_pipe : one_of metacharacters b'|' ≡ false
unfolding one_of codes
no_pipe = refl

-- An accepted command holds no shell metacharacter, no line feed or carriage return and no other
-- ASCII control character.
pub approved-IsPlain : (c : Text) → (validate_text c).allowed ≡ true → All IsPlain c
approved-IsPlain c h =
    let found = validate_text_sound c h in
    both-All (λ d. one_of metacharacters d ≡ false) (λ d. is_control d ≡ false) c
      (Matches-Over (λ d. one_of metacharacters d ≡ false)
        (pattern-Over metacharacters metacharacters_apart no_pipe found.family) found.word)
      found.printable
