-- ===== src/Cli/Ssh/Truncate.antt =====
-- cli/ssh.py: what is kept of an output that is cut.
use prisma_sdwan_mcp.Prelude.Text.{Text}
use prisma_sdwan_mcp.Prelude.{
  leb, leb→le, Bool-cases, Option-cases, length, take, All, length-append, ℕ, zero, suc, ◌-◌, ◌/◌,
  ◌≤◌, ◌<◌, min, max, ◌≡◌, refl, sym, ap, ◌↔◌, inl, inr, true, false, List, [], ◌∷◌, ◌++◌, arith,
}
use prisma_sdwan_mcp.Cli.Ssh.{
  utf8, encode, decode, last_newline, cut_at_line, Truncated, truncate_output,
}

-- A character's bytes, decoded in front of others.
decode-utf8 : (c : ℕ) (t : List ℕ) → c < 0x110000 → decode (utf8 c ++ t) ≡ c ∷ decode t
unfolding decode utf8
decode-utf8 c [] h = ground arith
decode-utf8 c (x ∷ []) h = ground arith
decode-utf8 c (x ∷ y ∷ []) h = ground arith
decode-utf8 c (x ∷ y ∷ z ∷ t) h = ground arith

-- A character that is cut off is left out.
decode_partial : (c n : ℕ) → c < 0x110000 → n < length (utf8 c) → decode (take n (utf8 c)) ≡ []
unfolding decode utf8
decode_partial c zero h k = refl
decode_partial c (suc zero) h k = ground arith
decode_partial c (suc (suc zero)) h k = ground arith
decode_partial c (suc (suc (suc zero))) h k = ground arith
decode_partial c (suc (suc (suc (suc n)))) h k = ground arith

take-append_long :
    (n : ℕ) (xs ys : List ℕ) → length xs ≤ n → take n (xs ++ ys) ≡ xs ++ take (n - length xs) ys
take-append_long n [] ys h = ap (λ m. take m ys) (omega arith)
take-append_long zero (x ∷ xs) ys h = absurd (omega arith)
take-append_long (suc n) (x ∷ xs) ys h =
    let fewer : suc n - suc (length xs) ≡ n - length xs = omega arith in
    ap (λ l. x ∷ l) (rw fewer (take-append_long n xs ys (omega arith)))

take-append_short : (n : ℕ) (xs ys : List ℕ) → n < length xs → take n (xs ++ ys) ≡ take n xs
take-append_short zero xs ys h = refl
take-append_short (suc n) [] ys h = absurd (omega arith)
take-append_short (suc n) (x ∷ xs) ys h = ap (λ l. x ∷ l) (take-append_short n xs ys (omega arith))

take-take : (m n : ℕ) (xs : List ℕ) → take m (take n xs) ≡ take (min m n) xs
take-take zero n xs = let least : 0 ≡ min 0 n = omega arith in ap (λ k. take k xs) least
take-take (suc m) zero xs = let least : 0 ≡ min (suc m) 0 = omega arith in ap (λ k. take k xs) least
take-take (suc m) (suc n) [] =
    let least : min (suc m) (suc n) ≡ suc (min m n) = omega arith in rw least refl
take-take (suc m) (suc n) (x ∷ xs) =
    let least : min (suc m) (suc n) ≡ suc (min m n) = omega arith in
    rw least (ap (λ l. x ∷ l) (take-take m n xs))

abbrev pub AreScalars : Text → Type 0
AreScalars s = All (λ c. c < 0x110000) s

-- The decoding of a beginning of the bytes is a beginning of the text, and its bytes are no more.
decode-take :
    (n : ℕ) (s : Text)
    → AreScalars s
    → (k : ℕ) × (decode (take n (encode s)) ≡ take k s) × (length (encode (take k s)) ≤ n)
unfolding encode
decode-take zero [] h = (0, unfold decode in refl, omega arith)
decode-take (suc n) [] h = (0, unfold decode in refl, omega arith)
decode-take n (c ∷ s) (lt, h) = elim (Bool-cases (leb (length (utf8 c)) n)) [
  | inl e ↦
      let fits : length (utf8 c) ≤ n = leb→le _ _ e in
      let (k, d, l) = decode-take (n - length (utf8 c)) s h in
      (
        suc k,
        rw
            (
              take-append_long n (utf8 c) (encode s) fits,
              decode-utf8 c (take (n - length (utf8 c)) (encode s)) lt,
              d,
            )
            refl,
        omega (arith, length-append (utf8 c) (encode (take k s))),
      )
  | inr e ↦
      let cut : n < length (utf8 c) = ground arith in
      (
        0,
        rw (take-append_short n (utf8 c) (encode s) cut, decode_partial c n lt cut) refl,
        omega arith,
      )
]

-- What the cap and the last line end leave is a beginning of the bytes, no longer than the cap.
cut_at_line-take :
    (m : ℕ) (bytes : List ℕ) → (n : ℕ) × (cut_at_line m (take m bytes) ≡ take n bytes) × (n ≤ m)
unfolding cut_at_line
cut_at_line-take m bytes = elim (Option-cases (last_newline (take m bytes))) [
  | inl e ↦ (m, rw (e, cut_at_line) refl, omega arith)
  | inr (i, e) ↦ elim (Bool-cases (leb (m - max 1 (m / 10)) i)) [
    | inl f ↦ (min i m, rw (e, cut_at_line, f) (take-take i m bytes), omega arith)
    | inr f ↦ (m, rw (e, cut_at_line, f) refl, omega arith)
  ]
]

pub record IsHead (output : Text) (max_bytes : ℕ) (t : Truncated) : Type 0 where
  pub kept_count : ℕ
  pub is_prefix : t.kept ≡ take kept_count output
  pub fits : length (encode t.kept) ≤ max_bytes
  pub total : t.total_bytes ≡ length (encode output)
  pub flag : (t.truncated ≡ true) ↔ (max_bytes < t.total_bytes)
  pub whole : t.truncated ≡ false → t.kept ≡ output

take_all : (s : Text) → take (length s) s ≡ s
take_all [] = refl
take_all (c ∷ s) = ap (λ l. c ∷ l) (take_all s)

-- The kept text is a beginning of the output whose bytes fit the cap; the total is the output's
-- size in bytes, the flag says whether it passes the cap, and without the flag all is kept.
pub truncate_output-IsHead :
    (output : Text) (max_bytes : ℕ)
    → AreScalars output
    → IsHead output max_bytes (truncate_output output max_bytes)
unfolding truncate_output
truncate_output-IsHead output m h = elim (Bool-cases (leb (length (encode output)) m)) [
  | inl e ↦ rw e (record {
    kept_count = length output;
    is_prefix = sym (take_all output);
    fits = leb→le _ _ e;
    total = refl;
    flag = (λ x. cc, λ x. absurd (omega (arith, leb→le (length (encode output)) m e)));
    whole = λ x. refl;
  })
  | inr e ↦
      let (n, c, l) = cut_at_line-take m (encode output) in
      let (k, d, f) = decode-take n output h in
      rw (e, c, d)
        (record {
          kept_count = k;
          is_prefix = refl;
          fits = omega arith;
          total = refl;
          flag = (λ x. ground arith, λ x. refl);
          whole = λ x. cc;
        })
]
