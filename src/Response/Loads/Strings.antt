-- ===== src/Response/Loads/Strings.antt =====
-- response.py: the characters and the strings that json.loads reads. The bytes are taken for UTF-8, with
-- surrogates let through; `none` stands for each exception that the caller of json.loads catches.
use prisma_sdwan_mcp.Prelude.{
  ltb, leb, ◌==◌, if◌then◌else◌, ℕ, zero, suc, ◌+◌, ◌-◌, ◌*◌, Bool, true, false, not, ◌&&◌, ◌||◌,
  Option, none, some, List, [], ◌∷◌,
}
use prisma_sdwan_mcp.Prelude.Text.{Text, in_range}

infixl 5 ◌>>=◌
abbrev pub ◌>>=◌ : {A B : Type 0} → Option A → (A → Option B) → Option B
none >>= next = none
some a >>= next = next a

is_follow : ℕ → Bool
unfolding in_range
is_follow = in_range 0x80 0xbf

-- The first character of UTF-8 bytes, in its shortest form, and the bytes behind it.
unfoldable pub first_char : List ℕ → Option (ℕ × List ℕ)
unfolding is_follow in_range
first_char [] = none
first_char (a ∷ s) = if ltb a 0x80 then some (a, s) else elim s [
  | [] ↦ none
  | b ∷ s ↦
      if not (is_follow b)
      then none
      else if in_range 0xc2 0xdf a
      then some ((a - 0xc0) * 0x40 + (b - 0x80), s)
      else elim s [
        | [] ↦ none
        | c ∷ s ↦
            if not (is_follow c)
            then none
            else if in_range 0xe0 0xef a && (leb 0xa0 b || ltb 0xe0 a)
            then some ((a - 0xe0) * 0x1000 + (b - 0x80) * 0x40 + (c - 0x80), s)
            else elim s [
              | [] ↦ none
              | d ∷ s ↦
                  if is_follow d
                    && in_range 0xf0 0xf4 a
                    && (leb 0x90 b || ltb 0xf0 a)
                    && (ltb b 0x90 || ltb a 0xf4)
                  then some (
                    (a - 0xf0) * 0x40000 + (b - 0x80) * 0x1000 + (c - 0x80) * 0x40 + (d - 0x80),
                    s,
                  )
                  else none
            ]
      ]
]

-- One round for each character.
unfoldable pub chars_of : ℕ → List ℕ → Option Text
unfolding first_char
chars_of fuel [] = some []
chars_of zero (a ∷ s) = none
chars_of (suc fuel) (a ∷ s) = do
  (c, rest) ← first_char (a ∷ s)
  chars ← chars_of fuel rest
  some (c ∷ chars)

unfoldable pub skip : Text → Text
skip [] = []
skip (c ∷ s) = let rest = skip s in if c == 32 || c == 9 || c == 10 || c == 13 then rest else c ∷ s

unfoldable pub hex_value : ℕ → Option ℕ
unfolding in_range
hex_value c =
    if in_range b'0' b'9' c
    then some (c - b'0')
    else if in_range b'a' b'f' c
    then some (c - b'a' + 10)
    else if in_range b'A' b'F' c
    then some (c - b'A' + 10)
    else none

unfoldable pub hex_four : Text → Option (ℕ × Text)
unfolding hex_value
hex_four (a ∷ b ∷ c ∷ d ∷ s) = do
  a ← hex_value a
  b ← hex_value b
  c ← hex_value c
  d ← hex_value d
  some (a * 4096 + b * 256 + c * 16 + d, s)
hex_four _ = none

-- The second half of a surrogate pair, if it stands next.
unfoldable pub low_half : Text → Option (ℕ × Text)
unfolding hex_four in_range
low_half (a ∷ b ∷ s) = elim (if a == 92 && b == b'u' then hex_four s else none) [
  | none ↦ none
  | some (low, rest) ↦ if in_range 0xdc00 0xdfff low then some (low, rest) else none
]
low_half _ = none

unfoldable pub unicode : Text → Option (ℕ × Text)
unfolding hex_four low_half in_range
unicode s = elim (hex_four s) [
  | none ↦ none
  | some (c, rest) ↦ elim (if in_range 0xd800 0xdbff c then low_half rest else none) [
    | none ↦ some (c, rest)
    | some (low, behind) ↦ some (0x10000 + (c - 0xd800) * 0x400 + (low - 0xdc00), behind)
  ]
]

-- The character behind a backslash.
unfoldable pub escape : Text → Option (ℕ × Text)
unfolding unicode
escape [] = none
escape (e ∷ s) =
    if e == 34 || e == 92 || e == b'/'
    then some (e, s)
    else if e == b'b'
    then some (8, s)
    else if e == b'f'
    then some (12, s)
    else if e == b'n'
    then some (10, s)
    else if e == b'r'
    then some (13, s)
    else if e == b't'
    then some (9, s)
    else if e == b'u'
    then unicode s
    else none

-- The rest of a string behind its opening quote; one round for each character of it.
unfoldable pub parse_chars : ℕ → Text → Option (Text × Text)
unfolding escape
parse_chars zero s = none
parse_chars (suc fuel) [] = none
parse_chars (suc fuel) (c ∷ s) = elim (c == 34) [
  | true ↦ some ([], s)
  | false ↦ elim (ltb c 32) [
    | true ↦ none
    | false ↦ elim (if c == 92 then escape s else some (c, s)) [
      | none ↦ none
      | some (d, rest) ↦ elim (parse_chars fuel rest) [
        | none ↦ none
        | some (chars, behind) ↦ some (d ∷ chars, behind)
      ]
    ]
  ]
]
