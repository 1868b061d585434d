-- ===== src/Response/Cursor/Padding.antt =====
-- response.py: the base64 layer of a cursor, whose padding the encoder takes away.
use prisma_sdwan_mcp.Prelude.{
  ltb, length, is_empty, ℕ, suc, ◌+◌, ◌*◌, ◌/◌, ◌%◌, ◌≡◌, refl, true, false, none, some, List, [],
  ◌∷◌, ◌++◌, arith,
}
use prisma_sdwan_mcp.Prelude.Text.{Text}
use prisma_sdwan_mcp.Response.Base64.{
  digit64, encode64, decode64, digit_plain, AreBytes, decode64-encode64,
}
use prisma_sdwan_mcp.Response.Loads.{loads}
use prisma_sdwan_mcp.Response.Cursor.{strip_pads, pads_for, is_ascii, offset_in, decode_cursor}

strip_digit : (n : ℕ) (t : Text) → strip_pads (digit64 n ∷ t) ≡ digit64 n ∷ strip_pads t
unfolding strip_pads
strip_digit n t = ground (arith, digit_plain n)

pads_for_four : (n : ℕ) → pads_for (suc (suc (suc (suc n)))) ≡ pads_for n
unfolding pads_for
pads_for_four n = ground arith

-- The padding that the decoder adds is the one that the encoder took away.
strip_pads-pads_for :
    (bytes : List ℕ)
    → strip_pads (encode64 bytes) ++ pads_for (length (strip_pads (encode64 bytes)))
      ≡ encode64 bytes
unfolding encode64
strip_pads-pads_for [] = unfold strip_pads pads_for in refl
strip_pads-pads_for (a ∷ []) =
    rw
      (
        strip_digit (a / 4) (digit64 (a % 4 * 16) ∷ b'=' ∷ b'=' ∷ []),
        strip_digit (a % 4 * 16) (b'=' ∷ b'=' ∷ []),
      )
      (unfold strip_pads pads_for in refl)
strip_pads-pads_for (a ∷ b ∷ []) =
    let second = a % 4 * 16 + b / 16 in
    let third = b % 16 * 4 in
    rw
      (
        strip_digit (a / 4) (digit64 second ∷ digit64 third ∷ b'=' ∷ []),
        strip_digit second (digit64 third ∷ b'=' ∷ []),
        strip_digit third (b'=' ∷ []),
      )
      (unfold strip_pads pads_for in refl)
strip_pads-pads_for (a ∷ b ∷ c ∷ s) =
    let second = a % 4 * 16 + b / 16 in
    let third = b % 16 * 4 + c / 64 in
    let fourth = c % 64 in
    rw
      (
        strip_digit (a / 4) (digit64 second ∷ digit64 third ∷ digit64 fourth ∷ encode64 s),
        strip_digit second (digit64 third ∷ digit64 fourth ∷ encode64 s),
        strip_digit third (digit64 fourth ∷ encode64 s),
        strip_digit fourth (encode64 s),
        pads_for_four (length (strip_pads (encode64 s))),
        strip_pads-pads_for s,
      )
      refl

digit_ascii : (n : ℕ) → ltb (digit64 n) 128 ≡ true
unfolding digit64
digit_ascii n = ground arith

is_ascii-encode64 : (bytes : List ℕ) → is_ascii (encode64 bytes) ≡ true
unfolding is_ascii encode64
is_ascii-encode64 [] = refl
is_ascii-encode64 (a ∷ []) = rw (digit_ascii (a / 4), digit_ascii (a % 4 * 16)) refl
is_ascii-encode64 (a ∷ b ∷ []) =
    rw (digit_ascii (a / 4), digit_ascii (a % 4 * 16 + b / 16), digit_ascii (b % 16 * 4)) refl
is_ascii-encode64 (a ∷ b ∷ c ∷ s) =
    rw
      (
        digit_ascii (a / 4),
        digit_ascii (a % 4 * 16 + b / 16),
        digit_ascii (b % 16 * 4 + c / 64),
        digit_ascii (c % 64),
      )
      (is_ascii-encode64 s)

is_ascii-strip_pads : (s : Text) → is_ascii s ≡ true → is_ascii (strip_pads s) ≡ true
unfolding is_ascii strip_pads
is_ascii-strip_pads [] h = refl
is_ascii-strip_pads (c ∷ s) h = ground (arith, is_ascii-strip_pads s)

strip_pads-ne-nil : (a : ℕ) (bytes : List ℕ) → is_empty (strip_pads (encode64 (a ∷ bytes))) ≡ false
unfolding encode64
strip_pads-ne-nil a [] = rw (strip_digit (a / 4) (digit64 (a % 4 * 16) ∷ b'=' ∷ b'=' ∷ [])) refl
strip_pads-ne-nil a (b ∷ []) =
    rw (strip_digit (a / 4) (digit64 (a % 4 * 16 + b / 16) ∷ digit64 (b % 16 * 4) ∷ b'=' ∷ [])) refl
strip_pads-ne-nil a (b ∷ c ∷ s) =
    rw
      (strip_digit (a / 4) (
        digit64 (a % 4 * 16 + b / 16)
        ∷ digit64 (b % 16 * 4 + c / 64)
        ∷ digit64 (c % 64)
        ∷ encode64 s))
      refl

decode_some :
    (s : Text) (total : ℕ) (tool : Text)
    → is_empty s ≡ false
    → is_ascii s ≡ true
    → decode_cursor (some s) total tool ≡ elim (decode64 (s ++ pads_for (length s))) [
      | none ↦ none
      | some bytes ↦ elim (loads bytes) [ none ↦ none | some json ↦ offset_in total tool json ]
    ]
unfolding decode_cursor
decode_some [] total tool e h = cc
decode_some (c ∷ s) total tool e h = rw (decode_cursor, h) refl

-- The base64 layer of a cursor that is made from bytes.
decode_bytes :
    (a : ℕ) (bytes : List ℕ) (total : ℕ) (tool : Text)
    → AreBytes (a ∷ bytes)
    → decode_cursor (some (strip_pads (encode64 (a ∷ bytes)))) total tool
      ≡ elim (loads (a ∷ bytes)) [ none ↦ none | some json ↦ offset_in total tool json ]
decode_bytes a bytes total tool h =
    rw
      (
        decode_some (strip_pads (encode64 (a ∷ bytes))) total tool (strip_pads-ne-nil a bytes)
            (is_ascii-strip_pads _ (is_ascii-encode64 (a ∷ bytes))),
        strip_pads-pads_for (a ∷ bytes),
      )
      (unfold decode64 in rw (decode64-encode64 (a ∷ bytes) h) refl)

pub decode_filled :
    (bytes : List ℕ) (total : ℕ) (tool : Text)
    → is_empty bytes ≡ false
    → AreBytes bytes
    → decode_cursor (some (strip_pads (encode64 bytes))) total tool
      ≡ elim (loads bytes) [ none ↦ none | some json ↦ offset_in total tool json ]
decode_filled [] total tool e h = cc
decode_filled (a ∷ bytes) total tool e h = decode_bytes a bytes total tool h
