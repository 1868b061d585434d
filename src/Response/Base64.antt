-- ===== src/Response/Base64.antt =====
-- response.py: base64.urlsafe_b64encode and base64.urlsafe_b64decode, on lists of bytes. The decoder
-- is that of binascii without strict mode: it skips a character that is no digit.
use prisma_sdwan_mcp.Prelude.{
  ltb, leb, ◌==◌, if◌then◌else◌, All, ℕ, suc, ◌+◌, ◌-◌, ◌*◌, ◌/◌, ◌%◌, ◌<◌, ◌≡◌, refl, Bool, true,
  false, ◌||◌, Option, none, some, List, [], ◌∷◌, ◌++◌, arith,
}
use prisma_sdwan_mcp.Prelude.Text.{Text, codes, in_range}

unfoldable pub digit64 : ℕ → ℕ
digit64 n =
    if ltb n 26
    then b'A' + n
    else if ltb n 52
    then b'a' + (n - 26)
    else if ltb n 62
    then b'0' + (n - 52)
    else if n == 62
    then b'-'
    else b'_'

-- Three bytes are four digits; a rest of one or two bytes is filled up with `=`.
unfoldable pub encode64 : List ℕ → Text
unfolding digit64
encode64 [] = []
encode64 (a ∷ []) = digit64 (a / 4) ∷ digit64 (a % 4 * 16) ∷ b'=' ∷ b'=' ∷ []
encode64 (a ∷ b ∷ []) =
    digit64 (a / 4) ∷ digit64 (a % 4 * 16 + b / 16) ∷ digit64 (b % 16 * 4) ∷ b'=' ∷ []
encode64 (a ∷ b ∷ c ∷ s) =
    digit64 (a / 4)
    ∷ digit64 (a % 4 * 16 + b / 16)
    ∷ digit64 (b % 16 * 4 + c / 64)
    ∷ digit64 (c % 64)
    ∷ encode64 s

-- The value of a digit of either alphabet: urlsafe_b64decode changes `-` to `+` and `_` to `/`.
unfoldable pub value64 : ℕ → Option ℕ
unfolding in_range
value64 c =
    if in_range b'A' b'Z' c
    then some (c - b'A')
    else if in_range b'a' b'z' c
    then some (c - b'a' + 26)
    else if in_range b'0' b'9' c
    then some (c - b'0' + 52)
    else if c == b'-' || c == b'+'
    then some 62
    else if c == b'_' || c == b'/'
    then some 63
    else none

-- What the decoder has read of a group of four: no digit, one, two or three of them, with the bits
-- that are not yet given out.
pub data Group : Type 0 where
  start : Group
  one two three : ℕ → Group

-- The bytes that a digit completes, and the group after it.
unfoldable pub read_digit : Group → ℕ → List ℕ × Group
read_digit start v = ([], one v)
read_digit (one w) v = ((w * 4 + v / 16) ∷ [], two (v % 16))
read_digit (two w) v = ((w * 16 + v / 4) ∷ [], three (v % 4))
read_digit (three w) v = ((w * 64 + v) ∷ [], start)

-- Whether `=` ends the data: the digits of the group and the `=` behind them are four or more.
unfoldable pub padded : Group → ℕ → Bool
padded start pads = false
padded (one w) pads = false
padded (two w) pads = leb 2 pads
padded (three w) pads = leb 1 pads

-- `pads` counts the `=` since the last digit. `none` stands for binascii.Error.
unfoldable pub decode64_from : Group → ℕ → Text → Option (List ℕ)
unfolding value64 read_digit padded
decode64_from start pads [] = some []
decode64_from (one w) pads [] = none
decode64_from (two w) pads [] = none
decode64_from (three w) pads [] = none
decode64_from g pads (c ∷ s) = elim (c == b'=') [
  | true ↦ elim (padded g (suc pads)) [ true ↦ some [] | false ↦ decode64_from g (suc pads) s ]
  | false ↦ elim (value64 c) [
    | none ↦ decode64_from g pads s
    | some v ↦ elim (decode64_from ((read_digit g v).1) 0 s) [
      | none ↦ none
      | some bytes ↦ some ((read_digit g v).0 ++ bytes)
    ]
  ]
]

unfoldable pub decode64 : Text → Option (List ℕ)
unfolding decode64_from
decode64 s = decode64_from start 0 s

decoded_text : decode64 (encode64 (codes "{\"v\":3}")) ≡ some (codes "{\"v\":3}")
unfolding decode64 encode64 codes decode64_from value64 read_digit padded digit64 in_range
decoded_text = refl

digit_value : (n : ℕ) → n < 64 → value64 (digit64 n) ≡ some n
unfolding value64 digit64 in_range
digit_value n h = ground arith

pub digit_plain : (n : ℕ) → (digit64 n == b'=') ≡ false
unfolding digit64
digit_plain n = ground arith

-- One digit of an encoding, in front of any text.
read_one :
    (g : Group) (n pads : ℕ) (s : Text)
    → n < 64
    → decode64_from g pads (digit64 n ∷ s) ≡ elim (decode64_from ((read_digit g n).1) 0 s) [
      | none ↦ none
      | some bytes ↦ some ((read_digit g n).0 ++ bytes)
    ]
unfolding decode64_from
read_one start n pads s h = rw (decode64_from, digit_plain n, digit_value n h) refl
read_one (one w) n pads s h = rw (decode64_from, digit_plain n, digit_value n h) refl
read_one (two w) n pads s h = rw (decode64_from, digit_plain n, digit_value n h) refl
read_one (three w) n pads s h = rw (decode64_from, digit_plain n, digit_value n h) refl

abbrev pub AreBytes : List ℕ → Type 0
AreBytes = All (λ b. b < 256)

pub decode64-encode64 :
    (bytes : List ℕ) → AreBytes bytes → decode64_from start 0 (encode64 bytes) ≡ some bytes
unfolding encode64 read_digit
decode64-encode64 [] h = unfold decode64_from in refl
decode64-encode64 (a ∷ []) (ha, h) =
    rw
      (
        read_one start (a / 4) 0 (digit64 (a % 4 * 16) ∷ b'=' ∷ b'=' ∷ []) (omega arith),
        read_one (one (a / 4)) (a % 4 * 16) 0 (b'=' ∷ b'=' ∷ []) (omega arith),
      )
      (unfold decode64_from padded in ground arith)
decode64-encode64 (a ∷ b ∷ []) (ha, (hb, h)) =
    let second = digit64 (a % 4 * 16 + b / 16) in
    let third = digit64 (b % 16 * 4) in
    rw
      (
        read_one start (a / 4) 0 (second ∷ third ∷ b'=' ∷ []) (omega arith),
        read_one (one (a / 4)) (a % 4 * 16 + b / 16) 0 (third ∷ b'=' ∷ []) (omega arith),
        read_one (two ((a % 4 * 16 + b / 16) % 16)) (b % 16 * 4) 0 (b'=' ∷ []) (omega arith),
      )
      (unfold decode64_from padded in ground arith)
decode64-encode64 (a ∷ b ∷ c ∷ s) (ha, (hb, (hc, h))) =
    let second = digit64 (a % 4 * 16 + b / 16) in
    let third = digit64 (b % 16 * 4 + c / 64) in
    let fourth = digit64 (c % 64) in
    rw
      (
        read_one start (a / 4) 0 (second ∷ third ∷ fourth ∷ encode64 s) (omega arith),
        read_one (one (a / 4)) (a % 4 * 16 + b / 16) 0 (third ∷ fourth ∷ encode64 s) (omega arith),
        read_one (two ((a % 4 * 16 + b / 16) % 16)) (b % 16 * 4 + c / 64) 0 (fourth ∷ encode64 s)
            (omega arith),
        read_one (three ((b % 16 * 4 + c / 64) % 4)) (c % 64) 0 (encode64 s) (omega arith),
        decode64-encode64 s h,
      )
      (ground arith)
