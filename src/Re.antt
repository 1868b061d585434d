-- ===== src/Re.antt =====
-- Python's `re`, for the constructs that the patterns of the program use: a backtracking matcher
-- that gives every end of a match in the order of preference in which `re` tries them.
-- The patterns of cli/policy.py, cli/ssh.py, cli/redact.py, response.py and safety.py are values of `Re`.
pub mod Language
pub mod Alphabet
use prisma_sdwan_mcp.Prelude.{
  ltb, leb, ◌==◌, if◌then◌else◌, length, any, keep, is_empty, flat_map, ℕ, zero, suc, ◌+◌, Bool,
  true, false, ◌&&◌, ◌||◌, Option, none, some, List, [], ◌∷◌, ◌++◌,
}
use prisma_sdwan_mcp.Prelude.Text.{Text}

pub data Re : Type 0 where
  eps : Re
  chr : (ℕ → Bool) → Re
  seq alt : Re → Re → Re
  star lazy : Re → Re

abbrev pub plus : Re → Re
plus r = seq r (star r)

abbrev pub opt : Re → Re
opt r = alt r eps

abbrev pub lit : Text → Re
lit [] = eps
lit (c ∷ s) = seq (chr (λ d. d == c)) (lit s)

-- `r{lo,lo+extra}`
abbrev pub up_to : ℕ → Re → Re
up_to zero r = eps
up_to (suc n) r = opt (seq r (up_to n r))

-- One more round of a loop has to consume something: `re` leaves a loop on an empty round.
shorter : Text → Text → Bool
shorter s rest = ltb (length rest) (length s)

rounds : (Text → List Text) → ℕ → Text → List Text
unfolding shorter
rounds step zero s = s ∷ []
rounds step (suc f) s = flat_map (rounds step f) (keep (shorter s) (step s)) ++ s ∷ []

lazy_rounds : (Text → List Text) → ℕ → Text → List Text
unfolding shorter
lazy_rounds step zero s = s ∷ []
lazy_rounds step (suc f) s = s ∷ flat_map (lazy_rounds step f) (keep (shorter s) (step s))

-- What is left of the text behind each match at its start, the preferred one first.
unfoldable pub ends : Re → Text → List Text
unfolding rounds lazy_rounds
ends eps s = s ∷ []
ends (chr p) [] = []
ends (chr p) (c ∷ s) = if p c then s ∷ [] else []
ends (seq a b) s = flat_map (ends b) (ends a s)
ends (alt a b) s = ends a s ++ ends b s
ends (star r) s = rounds (ends r) (length s) s
ends (lazy r) s = lazy_rounds (ends r) (length s) s

-- `pattern.fullmatch(s) is not None`
unfoldable pub fullmatch : Re → Text → Bool
unfolding ends
fullmatch r s = any is_empty (ends r s)

-- `pattern.match(s)`: the text behind the preferred match.
unfoldable pub match : Re → Text → Option Text
unfolding ends
match r s = elim (ends r s) [ [] ↦ none | rest ∷ _ ↦ some rest ]

-- `pattern.search(s) is not None`
unfoldable pub search_in : Re → Text → Bool
unfolding match
search_in r [] = elim (match r []) [ none ↦ Bool.false | some _ ↦ true ]
search_in r (c ∷ s) =
    let later = search_in r s in elim (match r (c ∷ s)) [ none ↦ later | some _ ↦ true ]

replace_from : Re → Text → ℕ → Text → Text
unfolding match
replace_from r new zero s = s
replace_from r new (suc f) [] = []
replace_from r new (suc f) (c ∷ s) = elim (match r (c ∷ s)) [
  | none ↦ c ∷ replace_from r new f s
  | some rest ↦ new ++ replace_from r new f rest
]

-- `pattern.sub(new, s)` and `s.replace(word, new)`, for a pattern that does not match the empty text.
unfoldable pub replace_all : Re → Text → Text → Text
unfolding replace_from
replace_all r new s = replace_from r new (length s) s

-- One character under `re.IGNORECASE`: beside the ASCII letters, the few other characters that
-- Python folds to an ASCII letter.
unfoldable pub fold_case : ℕ → ℕ
fold_case c =
    if leb b'A' c && leb c b'Z'
    then c + 32
    else if c == 0x130 || c == 0x131
    then b'i'
    else if c == 0x17f
    then b's'
    else if c == 0x212a
    then b'k'
    else c

-- A literal text, given in lower case, under `re.IGNORECASE`.
unfoldable pub ignore_case : Text → Re
unfolding fold_case
ignore_case [] = eps
ignore_case (c ∷ s) = seq (chr (λ d. fold_case d == c)) (ignore_case s)
