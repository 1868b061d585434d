-- ===== src/Response/Loads/Reads.antt =====
-- response.py: json.loads on what json.dumps writes.
use prisma_sdwan_mcp.Prelude.Int.{decimal_from}
use prisma_sdwan_mcp.Prelude.{
  ltb, ◌==◌, ltb→lt, ==→eq, Bool-cases, length, is_empty, All, length-append, ℕ, zero, suc, ◌+◌,
  ◌-◌, ◌*◌, ◌/◌, ◌%◌, ◌≤◌, ◌<◌, ◌≡◌, refl, sym, ap, ◌∙◌, ◌⊎◌, inl, inr, true, false, Option, none,
  some, List, [], ◌∷◌, ◌++◌, append_assoc, arith,
}
use prisma_sdwan_mcp.Prelude.Text.{Text, codes, in_range, is_digit}
use prisma_sdwan_mcp.Cli.Ssh.{utf8, encode}
use prisma_sdwan_mcp.Cli.Ssh.Truncate.{AreScalars}
use prisma_sdwan_mcp.Response.Json.{hex_digit, json_char, json_chars}
use prisma_sdwan_mcp.Resolver.Records.{digits_from, decimal}
use prisma_sdwan_mcp.Response.Loads.Strings.{
  first_char, chars_of, hex_value, hex_four, unicode, escape, parse_chars,
}
use prisma_sdwan_mcp.Response.Loads.{span_digits, leading_zero}

first_char-utf8 : (c : ℕ) (t : List ℕ) → c < 0x110000 → first_char (utf8 c ++ t) ≡ some (c, t)
unfolding first_char utf8 in_range
first_char-utf8 c t h = ground arith

chars_step :
    (fuel : ℕ) (bytes : List ℕ) (c : ℕ) (rest : List ℕ) (chars : Text)
    → first_char bytes ≡ some (c, rest)
    → chars_of fuel rest ≡ some chars
    → chars_of (suc fuel) bytes ≡ some (c ∷ chars)
unfolding chars_of
chars_step fuel [] c rest chars h k =
    let bad : ◌≡◌ {A = Option (ℕ × List ℕ)} none (some (c, rest)) = unfold first_char in h in cc
chars_step fuel (a ∷ bytes) c rest chars h k = rw (chars_of, h, k) refl

utf8-length : (c : ℕ) → 1 ≤ length (utf8 c)
unfolding utf8
utf8-length c = ground arith

-- The UTF-8 bytes of a text are read back.
pub chars_of-encode :
    (fuel : ℕ) (s : Text)
    → AreScalars s
    → length (encode s) ≤ fuel
    → chars_of fuel (encode s) ≡ some s
unfolding encode
chars_of-encode fuel [] h l = unfold chars_of in refl
chars_of-encode zero (c ∷ s) h l =
    absurd (omega (arith, utf8-length c, length-append (utf8 c) (encode s)))
chars_of-encode (suc fuel) (c ∷ s) (hc, h) l =
    chars_step fuel (utf8 c ++ encode s) c (encode s) s (first_char-utf8 c (encode s) hc)
      (chars_of-encode fuel s h (omega (arith, utf8-length c, length-append (utf8 c) (encode s))))

-- A character is written as an escape sequence or as itself.
abbrev IsWritten : ℕ → Type 0
IsWritten c =
    ((s : Text) × (json_char c ≡ 92 ∷ s) × ((t : Text) → escape (s ++ t) ≡ some (c, t)))
    ⊎ ((json_char c ≡ c ∷ []) × ((c == 34) ≡ false) × ((ltb c 32) ≡ false) × ((c == 92) ≡ false))

hex_value-hex_digit : (n : ℕ) → n < 16 → hex_value (hex_digit n) ≡ some n
unfolding hex_value hex_digit in_range
hex_value-hex_digit n h = ground arith

hex_four-two :
    (c : ℕ) (t : Text)
    → c < 256
    → hex_four (48 ∷ 48 ∷ hex_digit (c / 16) ∷ hex_digit (c % 16) ∷ t) ≡ some (c, t)
unfolding hex_four
hex_four-two c t h =
    let high : hex_value (hex_digit (c / 16)) ≡ some (c / 16) =
      hex_value-hex_digit _ (omega arith) in
    let low : hex_value (hex_digit (c % 16)) ≡ some (c % 16) =
      hex_value-hex_digit _ (omega arith) in
    let whole : 0 * 4096 + 0 * 256 + c / 16 * 16 + c % 16 ≡ c = omega arith in
    rw (hex_four, high, low, whole) refl

-- `\u00` and two digits.
control :
    (c : ℕ) (t : Text)
    → c < 32
    → escape (b'u' ∷ 48 ∷ 48 ∷ hex_digit (c / 16) ∷ hex_digit (c % 16) ∷ t) ≡ some (c, t)
control c t h =
    let low : in_range 0xd800 0xdbff c ≡ false = unfold in_range in ground arith in
    unfold escape in rw (unicode, hex_four-two c t (omega arith), low) refl

-- A character whose escape is a backslash and one letter.
letter :
    (c d : ℕ)
    → (e : ℕ) → json_char c ≡ 92 ∷ e ∷ []
    → ((t : Text) → escape (e ∷ t) ≡ some (d, t))
    → (c == d) ≡ true
    → IsWritten c
letter c d e w reads same =
    inl (e ∷ [], w, λ t. reads t ∙ ap (λ x. some (x, t)) (sym (==→eq c d same)))

written : (c : ℕ) → IsWritten c
unfolding json_char codes escape
written c = elim (Bool-cases (c == 34)) [
  | inl e ↦ letter c 34 34 (rw e refl) (λ t. refl) e
  | inr n34 ↦ elim (Bool-cases (c == 92)) [
    | inl e ↦ letter c 92 92 (rw (n34, e) refl) (λ t. refl) e
    | inr n92 ↦ elim (Bool-cases (c == 10)) [
      | inl e ↦ letter c 10 b'n' (rw (n34, n92, e) refl) (λ t. refl) e
      | inr n10 ↦ elim (Bool-cases (c == 13)) [
        | inl e ↦ letter c 13 b'r' (rw (n34, n92, n10, e) refl) (λ t. refl) e
        | inr n13 ↦ elim (Bool-cases (c == 9)) [
          | inl e ↦ letter c 9 b't' (rw (n34, n92, n10, n13, e) refl) (λ t. refl) e
          | inr n9 ↦ elim (Bool-cases (c == 8)) [
            | inl e ↦ letter c 8 b'b' (rw (n34, n92, n10, n13, n9, e) refl) (λ t. refl) e
            | inr n8 ↦ elim (Bool-cases (c == 12)) [
              | inl e ↦ letter c 12 b'f' (rw (n34, n92, n10, n13, n9, n8, e) refl) (λ t. refl) e
              | inr n12 ↦ elim (Bool-cases (ltb c 32)) [
                | inl e ↦
                    rw (n34, n92, n10, n13, n9, n8, n12, e)
                      (inl (
                        b'u' ∷ 48 ∷ 48 ∷ hex_digit (c / 16) ∷ hex_digit (c % 16) ∷ [],
                        refl,
                        λ t. control c t (ltb→lt c 32 e),
                      ))
                | inr e ↦ rw (n34, n92, n10, n13, n9, n8, n12, e) (inr (refl, refl, refl, refl))
              ]
            ]
          ]
        ]
      ]
    ]
  ]
]

one_char :
    (c fuel : ℕ) (t behind : Text) (chars : Text)
    → parse_chars fuel t ≡ some (chars, behind)
    → parse_chars (suc fuel) (json_char c ++ t) ≡ some (c ∷ chars, behind)
unfolding parse_chars
one_char c fuel t behind chars h = elim (written c) [
  | inl (s, w, reads) ↦ rw (w, parse_chars, reads t, h) refl
  | inr (w, quote, low, slash) ↦ rw (w, parse_chars, quote, low, slash, h) refl
]

-- A string is read up to its closing quote.
pub parse_chars-json_chars :
    (s : Text) (fuel : ℕ) (rest : Text)
    → length s < fuel
    → parse_chars fuel (json_chars s ++ 34 ∷ rest) ≡ some (s, rest)
unfolding json_chars
parse_chars-json_chars s zero rest h = absurd (omega arith)
parse_chars-json_chars [] (suc fuel) rest h = unfold parse_chars in refl
parse_chars-json_chars (c ∷ s) (suc fuel) rest h =
    rw (append_assoc (json_char c) (json_chars s) (34 ∷ rest)) (
      one_char c fuel (json_chars s ++ 34 ∷ rest) rest s
        (parse_chars-json_chars s fuel rest (omega arith)))

pub written_length : (s : Text) → length s ≤ length (json_chars s)
unfolding json_chars
written_length [] = omega arith
written_length (c ∷ s) =
    omega (arith, written_length s, one_length c, length-append (json_char c) (json_chars s))
  where
    one_length : (c : ℕ) → 1 ≤ length (json_char c)
    one_length c = elim (written c) [
      | inl (s, w, reads) ↦ rw w (omega arith)
      | inr (w, quote, low, slash) ↦ rw w (omega arith)
    ]

abbrev pub AreDigits : Text → Type 0
AreDigits = All (λ c. is_digit c ≡ true)

pub span_digits-append :
    (ds : Text) (c : ℕ) (rest : Text)
    → AreDigits ds
    → is_digit c ≡ false
    → span_digits (ds ++ c ∷ rest) ≡ (ds, c ∷ rest)
unfolding span_digits
span_digits-append [] c rest h k = rw k refl
span_digits-append (d ∷ ds) c rest (hd, h) k = rw (hd, span_digits-append ds c rest h k) refl

digit_char : (n : ℕ) → n < 10 → is_digit (b'0' + n) ≡ true
unfolding is_digit in_range
digit_char n h = ground arith

pub digits_from-AreDigits :
    (fuel n : ℕ) (out : Text) → AreDigits out → AreDigits (digits_from fuel n out)
unfolding digits_from
digits_from-AreDigits zero n out h = h
digits_from-AreDigits (suc fuel) n out h = elim (Bool-cases (ltb n 10)) [
  | inl e ↦ rw e (digit_char n (ltb→lt n 10 e), h)
  | inr e ↦ rw e (digits_from-AreDigits fuel (n / 10) _ (digit_char (n % 10) (omega arith), h))
]

pub decimal_from-digits_from :
    (fuel n : ℕ) (out : Text)
    → n < fuel
    → decimal_from 0 (digits_from fuel n out) ≡ decimal_from n out
unfolding digits_from decimal_from
decimal_from-digits_from zero n out h = absurd (omega arith)
decimal_from-digits_from (suc fuel) n out h = elim (Bool-cases (ltb n 10)) [
  | inl e ↦ rw e (ap (λ k. decimal_from k out) (omega arith))
  | inr e ↦
      let last : n / 10 * 10 + (b'0' + n % 10 - b'0') ≡ n = omega arith in
      rw e (
        decimal_from-digits_from fuel (n / 10) ((b'0' + n % 10) ∷ out) (ground arith)
        ∙ ap (λ k. decimal_from k out) last)
]

-- The digits of a positive number do not begin with a zero.
leads : Text → ℕ
leads [] = 0
leads (c ∷ s) = c

leads-digits_from :
    (fuel n : ℕ) (out : Text) → 0 < n → n < fuel → b'0' < leads (digits_from fuel n out)
unfolding digits_from leads
leads-digits_from zero n out h k = absurd (omega arith)
leads-digits_from (suc fuel) n out h k = elim (Bool-cases (ltb n 10)) [
  | inl e ↦ rw e (omega arith)
  | inr e ↦ rw e (leads-digits_from fuel (n / 10) _ (ground arith) (ground arith))
]

leading_zero-leads : (s : Text) → b'0' < leads s → (leading_zero s ≡ false) × (is_empty s ≡ false)
unfolding leading_zero leads
leading_zero-leads [] h = absurd (omega arith)
leading_zero-leads (c ∷ []) h = (refl, refl)
leading_zero-leads (c ∷ d ∷ s) h = (ground arith, refl)

pub decimal_shape : (n : ℕ) → (leading_zero (decimal n) ≡ false) × (is_empty (decimal n) ≡ false)
unfolding decimal leading_zero
decimal_shape zero = unfold digits_from in (refl, refl)
decimal_shape (suc n) =
    leading_zero-leads _ (leads-digits_from (suc (suc n)) (suc n) [] (omega arith) (omega arith))
