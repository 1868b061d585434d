-- ===== src/Prelude/Int.antt =====
-- Python's integers, and `int(text)`.
use prisma_sdwan_mcp.Prelude.{
  ltb, ◌==◌, if◌then◌else◌, ℕ, zero, suc, ◌+◌, ◌-◌, ◌*◌, Bool, true, false, ◌&&◌, Option, none,
  some, [], ◌∷◌,
}
use prisma_sdwan_mcp.Prelude.Text.{Text, is_digit, strip}

-- `negsuc n` is -(n + 1).
pub data ℤ : Type 0 where
  pos : ℕ → ℤ
  negsuc : ℕ → ℤ

abbrev pub negate : ℕ → ℤ
negate zero = pos 0
negate (suc n) = negsuc n

-- The value of a text of digits, from the left.
unfoldable pub decimal_from : ℕ → Text → ℕ
decimal_from n [] = n
decimal_from n (c ∷ s) = decimal_from (n * 10 + (c - b'0')) s

-- The digits of an integer literal: one or more, with a single `_` between two of them allowed.
-- The flag says whether a digit stands just before.
int_digits : Bool → Text → Option Text
int_digits after [] = if after then some [] else none
int_digits after (c ∷ s) = elim (is_digit c) [
  | true ↦ elim (int_digits true s) [ none ↦ none | some ds ↦ some (c ∷ ds) ]
  | false ↦ elim (after && c == b'_') [
    | true ↦ elim s [ [] ↦ none | _ ∷ _ ↦ int_digits false s ]
    | false ↦ none
  ]
]

unsigned : (ℕ → ℤ) → Text → Option ℤ
unsigned sign s = elim (int_digits false s) [
  | none ↦ none
  | some ds ↦ some (sign (decimal_from 0 ds))
]

signed : Text → Option ℤ
signed [] = none
signed (c ∷ s) =
    if c == b'-'
    then unsigned negate s
    else if c == b'+'
    then unsigned pos s
    else unsigned pos (c ∷ s)

-- `int(text)`, with `none` for its ValueError.
unfoldable pub parse_int : Text → Option ℤ
unfolding signed unsigned int_digits decimal_from is_digit strip
parse_int s = signed (strip s)

-- `z < n` for a bound that is no negative number.
abbrev pub below : ℤ → ℕ → Bool
below (pos m) n = ltb m n
below (negsuc m) n = true

abbrev pub to_nat : ℤ → ℕ
to_nat (pos m) = m
to_nat (negsuc m) = 0
