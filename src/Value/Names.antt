-- ===== src/Value/Names.antt =====
-- The key that a text is, where the program uses a text that it computed as a key of an object.
use Prim.Native.Nat.{compare, Ordering}
use Prim.Native.Char.{Char, char, nul}
use prisma_sdwan_mcp.Prelude.{ℕ, String, ◌≡◌, refl, sym, [], ◌∷◌}
use prisma_sdwan_mcp.Prelude.Text.{Text, codes}

scalar_or_nul :
    (n : ℕ) (o p q : Ordering)
    → o ≡ compare n 55296
    → p ≡ compare 57343 n
    → q ≡ compare n 1114112
    → Char
scalar_or_nul n Ordering.lt p q e f g = char n (rw (sym e) tt)
scalar_or_nul n Ordering.gt Ordering.lt Ordering.lt e f g = char n (rw (sym e, sym f, sym g) tt)
scalar_or_nul n o p q e f g = nul

-- The character of a code point; a surrogate, which no native text holds, becomes U+0000.
char_of : ℕ → Char
unfolding scalar_or_nul
char_of n = scalar_or_nul n (compare n 55296) (compare 57343 n) (compare n 1114112) refl refl refl

unfoldable pub name_of : Text → String
unfolding char_of
name_of [] = String.[]
name_of (c ∷ s) = String.◌∷◌ (char_of c) (name_of s)

emoji : name_of (codes "Hé😀") ≡ "Hé😀"
unfolding name_of codes
emoji = refl
