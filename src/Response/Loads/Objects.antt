-- ===== src/Response/Loads/Objects.antt =====
-- response.py: json.loads on numbers and on the members of an object, as json.dumps writes them.
use prisma_sdwan_mcp.Prelude.{
  ltb, ◌==◌, length, all, is_empty, length-append, ℕ, suc, ◌≤◌, ◌≡◌, refl, ap, ◌∙◌, true, false,
  some, [], ◌∷◌, ◌++◌, arith,
}
use prisma_sdwan_mcp.Prelude.Text.{Text, in_range, is_digit}
use prisma_sdwan_mcp.Prelude.Int.{pos, decimal_from}
use prisma_sdwan_mcp.Response.Json.{json_chars}
use prisma_sdwan_mcp.Resolver.Records.{decimal}
use prisma_sdwan_mcp.Response.Loads.Strings.{skip, parse_chars}
use prisma_sdwan_mcp.Response.Loads.{
  Json, number, text, object, Members, no_member, member, fraction, sign, exponent, parse_unsigned,
  parse_scalar, expect, next_or, parse_value, parse_members,
}
use prisma_sdwan_mcp.Response.Loads.Reads.{
  parse_chars-json_chars, written_length, AreDigits, span_digits-append, digits_from-AreDigits,
  decimal_from-digits_from, decimal_shape,
}

pub AreDigits-decimal : (n : ℕ) → AreDigits (decimal n)
unfolding decimal
AreDigits-decimal n = digits_from-AreDigits (suc n) n [] tt

decimal_from-decimal : (n : ℕ) → decimal_from 0 (decimal n) ≡ n
unfolding decimal
decimal_from-decimal n =
    decimal_from-digits_from (suc n) n [] (omega arith) ∙ (unfold decimal_from in refl)

unsigned-decimal :
    (n : ℕ) (rest : Text)
    → length (decimal n) ≤ 4300
    → parse_unsigned pos [] (decimal n ++ b',' ∷ rest) ≡ some (number (pos n), b',' ∷ rest)
unfolding parse_unsigned fraction exponent sign
unsigned-decimal n rest h =
    let comma : is_digit b',' ≡ false = unfold is_digit in_range in refl in
    let short : ltb 4300 (length (decimal n)) ≡ false = ground arith in
    let (led, filled) = decimal_shape n in
    rw
      (
        parse_unsigned,
        span_digits-append (decimal n) b',' rest (AreDigits-decimal n) comma,
        led,
        filled,
        short,
        decimal_from-decimal n,
      )
      refl

digit_value_step :
    (d : ℕ) (fuel : ℕ) (s : Text)
    → is_digit d ≡ true
    → parse_value (suc fuel) (d ∷ s) ≡ parse_unsigned pos [] (d ∷ s)
unfolding parse_value
digit_value_step d fuel s h =
    let quote : (d == 34) ≡ false = unfold is_digit in_range in ground arith in
    let brace : (d == b'{') ≡ false = unfold is_digit in_range in ground arith in
    let bracket : (d == b'[') ≡ false = unfold is_digit in_range in ground arith in
    rw (parse_value, quote, brace, bracket) (rw (parse_scalar, h) refl)

-- An integer that is written in front of a comma.
pub parse_value-decimal :
    (n fuel : ℕ) (rest : Text)
    → length (decimal n) ≤ 4300
    → parse_value (suc fuel) (decimal n ++ b',' ∷ rest) ≡ some (number (pos n), b',' ∷ rest)
parse_value-decimal n fuel rest h =
    go (decimal n) (AreDigits-decimal n) (decimal_shape n).1 ∙ unsigned-decimal n rest h
  where
    go :
        (ds : Text)
        → AreDigits ds
        → is_empty ds ≡ false
        → parse_value (suc fuel) (ds ++ b',' ∷ rest) ≡ parse_unsigned pos [] (ds ++ b',' ∷ rest)
    go [] all filled = cc
    go (d ∷ ds) (hd, all) filled = digit_value_step d fuel (ds ++ b',' ∷ rest) hd

-- A string that is written in front of anything.
pub parse_value-json_string :
    (s : Text) (fuel : ℕ) (rest : Text)
    → parse_value (suc fuel) (34 ∷ (json_chars s ++ 34 ∷ rest)) ≡ some (text s, rest)
unfolding parse_value
parse_value-json_string s fuel rest =
    rw
      (
        parse_value,
        parse_chars-json_chars s (suc (length (json_chars s ++ 34 ∷ rest))) rest
            (omega (arith, written_length s, length-append (json_chars s) (34 ∷ rest))),
      )
      refl

-- One member in front of a comma, and the last one.
pub more_members :
    (fuel : ℕ) (s k behind start rest rest' rest'' : Text) (v : Json) (ms : Members)
    → parse_chars (suc (length s)) s ≡ some (k, behind)
    → expect b':' behind ≡ some start
    → parse_value fuel start ≡ some (v, rest)
    → next_or b'}' rest ≡ some (true, rest')
    → parse_members fuel rest' ≡ some (ms, rest'')
    → parse_members (suc fuel) (34 ∷ s) ≡ some (member k v ms, rest'')
unfolding parse_members
more_members fuel s k behind start rest rest' rest'' v ms key colon value comma more =
    rw (parse_members, key, colon, value, comma, more) refl

pub last_member :
    (fuel : ℕ) (s k behind start rest rest' : Text) (v : Json)
    → parse_chars (suc (length s)) s ≡ some (k, behind)
    → expect b':' behind ≡ some start
    → parse_value fuel start ≡ some (v, rest)
    → next_or b'}' rest ≡ some (false, rest')
    → parse_members (suc fuel) (34 ∷ s) ≡ some (member k v no_member, rest')
unfolding parse_members
last_member fuel s k behind start rest rest' v key colon value close =
    rw (parse_members, key, colon, value, close) refl

pub whole_object :
    (fuel : ℕ) (s rest : Text) (ms : Members)
    → parse_members fuel (34 ∷ s) ≡ some (ms, rest)
    → parse_value (suc fuel) (b'{' ∷ 34 ∷ s) ≡ some (object ms, rest)
unfolding parse_value expect skip
whole_object fuel s rest ms members = rw (parse_value, members) refl

digit_stays : (d : ℕ) (s : Text) → is_digit d ≡ true → skip (d ∷ s) ≡ d ∷ s
unfolding skip is_digit in_range
digit_stays d s h = ground arith

-- A colon in front of a number.
pub expect-decimal :
    (n : ℕ) (rest : Text) → expect b':' (b':' ∷ (decimal n ++ rest)) ≡ some (decimal n ++ rest)
unfolding expect skip
expect-decimal n rest = ap some (go (decimal n) (AreDigits-decimal n) (decimal_shape n).1)
  where
    go : (ds : Text) → AreDigits ds → is_empty ds ≡ false → skip (ds ++ rest) ≡ ds ++ rest
    go [] all filled = cc
    go (d ∷ ds) (hd, all) filled = digit_stays d (ds ++ rest) hd
