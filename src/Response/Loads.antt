-- ===== src/Response/Loads.antt =====
-- response.py: json.loads of bytes, as `_decode_cursor` calls it. The bytes are taken for UTF-8, with
-- surrogates let through; `none` stands for each exception that the caller catches.
pub mod Strings
pub mod Reads
pub mod Objects
use prisma_sdwan_mcp.Prelude.{
  ltb, ◌==◌, if◌then◌else◌, length, is_empty, ℕ, zero, suc, ◌+◌, Bool, true, false, not, ◌&&◌, ◌||◌,
  Option, none, some, List, [], ◌∷◌, ◌++◌,
}
use prisma_sdwan_mcp.Prelude.Text.{Text, codes, in_range, is_digit, text_eq}
use prisma_sdwan_mcp.Prelude.Int.{ℤ, pos, negate, decimal_from}
use prisma_sdwan_mcp.Response.Loads.Strings.{chars_of, skip, parse_chars, ◌>>=◌}

-- What a text stands for; a float is its text, and the keys of an object may occur twice.
mutual
  pub data Json : Type 0 where
    nothing : Json
    truth : Bool → Json
    number : ℤ → Json
    float : Text → Json
    text : Text → Json
    array : Elements → Json
    object : Members → Json

  pub data Members : Type 0 where
    no_member : Members
    member : Text → Json → Members → Members

  pub data Elements : Type 0 where
    no_element : Elements
    element : Json → Elements → Elements

unfoldable pub span_digits : Text → Text × Text
unfolding is_digit in_range
span_digits [] = ([], [])
span_digits (c ∷ s) =
    let more = span_digits s in if is_digit c then (c ∷ more.0, more.1) else ([], c ∷ s)

-- `\.\d+`, or nothing.
unfoldable pub fraction : Text → Text × Text
unfolding span_digits
fraction [] = ([], [])
fraction (c ∷ s) =
    let (ds, rest) = span_digits s in
    if c == b'.' && not (is_empty ds) then (c ∷ ds, rest) else ([], c ∷ s)

unfoldable pub sign : Text → Text × Text
sign [] = ([], [])
sign (c ∷ s) = if c == b'-' || c == b'+' then (c ∷ [], s) else ([], c ∷ s)

-- `[eE][-+]?\d+`, or nothing.
unfoldable pub exponent : Text → Text × Text
unfolding span_digits sign
exponent [] = ([], [])
exponent (c ∷ s) =
    let (sgn, digits) = sign s in
    let (ds, rest) = span_digits digits in
    if (c == b'e' || c == b'E') && not (is_empty ds) then (c ∷ (sgn ++ ds), rest) else ([], c ∷ s)

-- More than one digit with a zero in front; the text behind the zero is refused by what calls.
unfoldable pub leading_zero : Text → Bool
leading_zero (c ∷ d ∷ s) = c == b'0'
leading_zero _ = false

-- A number without its sign: int refuses more than 4300 digits.
unfoldable pub parse_unsigned : (ℕ → ℤ) → Text → Text → Option (Json × Text)
unfolding span_digits fraction exponent leading_zero decimal_from
parse_unsigned signed sgn s =
    let (ds, behind) = span_digits s in
    let (frac, behind') = fraction behind in
    let (exp, rest) = exponent behind' in
    if is_empty ds || leading_zero ds
    then none
    else if not (is_empty frac && is_empty exp)
    then some (float (sgn ++ (ds ++ (frac ++ exp))), rest)
    else if ltb 4300 (length ds)
    then none
    else some (number (signed (decimal_from 0 ds)), rest)

-- The text behind a word that it starts with.
unfoldable pub behind_word : Text → Text → Option Text
behind_word [] s = some s
behind_word (d ∷ w) [] = none
behind_word (d ∷ w) (c ∷ s) = if c == d then behind_word w s else none

-- The words that stand for a value, tried in turn.
unfoldable pub parse_word : List (Text × Json) → Text → Option (Json × Text)
unfolding behind_word
parse_word [] s = none
parse_word ((w, v) ∷ words) s = elim (behind_word w s) [
  | some rest ↦ some (v, rest)
  | none ↦ parse_word words s
]

abbrev constants : List (Text × Json)
unfolding codes
constants =
    (codes "null", nothing)
    ∷ (codes "true", truth true)
    ∷ (codes "false", truth false)
    ∷ (codes "NaN", float (codes "nan"))
    ∷ (codes "Infinity", float (codes "inf"))
    ∷ (codes "-Infinity", float (codes "-inf"))
    ∷ []

unfoldable pub parse_scalar : ℕ → Text → Option (Json × Text)
unfolding parse_unsigned parse_word codes is_digit in_range
parse_scalar c s =
    if is_digit c then parse_unsigned pos [] (c ∷ s) else elim (parse_word constants (c ∷ s)) [
      | some r ↦ some r
      | none ↦ if c == b'-' then parse_unsigned negate (c ∷ []) s else none
    ]

-- A character that has to stand next, behind white space, and the white space behind it.
unfoldable pub expect : ℕ → Text → Option Text
unfolding skip
expect d s = elim (skip s) [ [] ↦ none | c ∷ rest ↦ if c == d then some (skip rest) else none ]

-- `,` or the closing character, behind white space.
unfoldable pub next_or : ℕ → Text → Option (Bool × Text)
unfolding skip
next_or close s = elim (skip s) [
  | [] ↦ none
  | c ∷ rest ↦
      if c == b',' then some (true, skip rest) else if c == close then some (false, rest) else none
]

-- A value, the members of an object and the elements of an array. Of two rounds one reads a character.
unfoldable mutual
  unfolding parse_chars parse_scalar expect next_or skip

  pub parse_value : ℕ → Text → Option (Json × Text)
  parse_value zero s = none
  parse_value (suc fuel) [] = none
  parse_value (suc fuel) (c ∷ s) = elim (c == 34) [
    | true ↦ elim (parse_chars (suc (length s)) s) [
      | none ↦ none
      | some (chars, rest) ↦ some (text chars, rest)
    ]
    | false ↦ elim (c == b'{') [
      | true ↦ elim (expect b'}' s) [
        | some rest ↦ some (object no_member, rest)
        | none ↦ elim (parse_members fuel (skip s)) [
          | none ↦ none
          | some (ms, rest) ↦ some (object ms, rest)
        ]
      ]
      | false ↦ elim (c == b'[') [
        | true ↦ elim (expect b']' s) [
          | some rest ↦ some (array no_element, rest)
          | none ↦ elim (parse_elements fuel (skip s)) [
            | none ↦ none
            | some (vs, rest) ↦ some (array vs, rest)
          ]
        ]
        | false ↦ parse_scalar c s
      ]
    ]
  ]

  pub parse_members : ℕ → Text → Option (Members × Text)
  parse_members zero s = none
  parse_members (suc fuel) [] = none
  parse_members (suc fuel) (c ∷ s) = elim (c == 34) [
    | false ↦ none
    | true ↦ elim (parse_chars (suc (length s)) s) [
      | none ↦ none
      | some (k, behind) ↦ elim (expect b':' behind) [
        | none ↦ none
        | some start ↦ elim (parse_value fuel start) [
          | none ↦ none
          | some (v, rest) ↦ elim (next_or b'}' rest) [
            | none ↦ none
            | some (false, rest) ↦ some (member k v no_member, rest)
            | some (true, rest) ↦ elim (parse_members fuel rest) [
              | none ↦ none
              | some (ms, rest) ↦ some (member k v ms, rest)
            ]
          ]
        ]
      ]
    ]
  ]

  pub parse_elements : ℕ → Text → Option (Elements × Text)
  parse_elements zero s = none
  parse_elements (suc fuel) s = elim (parse_value fuel s) [
    | none ↦ none
    | some (v, rest) ↦ elim (next_or b']' rest) [
      | none ↦ none
      | some (false, rest) ↦ some (element v no_element, rest)
      | some (true, rest) ↦ elim (parse_elements fuel rest) [
        | none ↦ none
        | some (vs, rest) ↦ some (element v vs, rest)
      ]
    ]
  ]

-- `json.loads(bytes)`: nothing but white space around the value.
unfoldable pub loads : List ℕ → Option Json
unfolding chars_of parse_value skip
loads bytes = do
  s ← chars_of (length bytes) bytes
  (v, rest) ← parse_value (length s + length s + 1) (skip s)
  if is_empty (skip rest) then some v else none

-- The value of a key: that of its last member.
unfoldable pub lookup : Text → Members → Option Json
unfolding text_eq
lookup k no_member = none
lookup k (member j v ms) = elim (lookup k ms) [
  | some w ↦ some w
  | none ↦ if text_eq j k then some v else none
]
