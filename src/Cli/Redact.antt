-- ===== src/Cli/Redact.antt =====
-- cli/redact.py: the substitutions that take credentials out of a device's output. A pattern is
-- split where its groups end: what is kept in front, the secret, and what is kept behind. `is_word`
-- is the `\w` of Python's `re`.
pub mod Flag
pub mod Tests
use prisma_sdwan_mcp.Prelude.{
  ◌==◌, if◌then◌else◌, length, take, ℕ, zero, suc, ◌-◌, String, Bool, true, false, not, ◌&&◌, ◌||◌,
  Option, none, some, List, [], ◌∷◌, ◌++◌,
}
use prisma_sdwan_mcp.Prelude.Text.{Text, codes, in_range, is_space, is_digit, is_alnum, text_eq}
use prisma_sdwan_mcp.Re.{
  Re, eps, chr, seq, alt, star, lazy, plus, opt, lit, ends, replace_all, fold_case, ignore_case,
}

-- `MARKER`
abbrev pub marker : Text
marker = codes "[REDACTED]"

-- A pattern with its groups; `boundary` says that it begins with `\b`.
pub record Secret : Type 0 where
  pub boundary : Bool
  pub before : Re
  pub value : Re
  pub behind : Re

abbrev visible : Re
visible = plus (chr (λ c. not (is_space c)))

abbrev spaces : Re
spaces = plus (chr is_space)

abbrev word : String → Re
word s = ignore_case (codes s)

-- `[- ]?`
abbrev gap : Re
gap = opt (chr (λ c. c == b'-' || c == 32))

-- `-?`
abbrev dash : Re
dash = opt (chr (λ c. c == b'-'))

abbrev one_of_words : List Re → Re
one_of_words [] = chr (λ c. false)
one_of_words (r ∷ []) = r
one_of_words (r ∷ rs) = alt r (one_of_words rs)

-- `_PEM_BLOCK`
pem_label : Re
unfolding codes
pem_label =
    seq (star (chr (λ c. not (c == b'-') && not (c == 10)))) (lit (codes "PRIVATE KEY-----"))

pem_block : Re
unfolding codes pem_label
pem_block =
    seq (lit (codes "-----BEGIN "))
      (seq pem_label (seq (lazy (chr (λ c. true))) (seq (lit (codes "-----END ")) pem_label)))

-- `_HASH`
hash : Re
unfolding in_range
hash =
    let kind = chr (λ c. in_range b'0' b'9' c || in_range b'a' b'z' c) in
    let body = chr (λ c. not (is_space c) && not (c == b':') && not (c == b',')) in
    seq (lit (b'$' ∷ [])) (
      seq (seq kind (opt kind))
        (seq (lit (b'$' ∷ [])) (seq body (seq body (seq body (seq body (star body)))))))

-- `\s*[=:]\s*`
assign : Re
assign = seq (star (chr is_space)) (seq (chr (λ c. c == b'=' || c == b':')) (star (chr is_space)))

psk_words : List Re
unfolding codes ignore_case
psk_words =
    word "password"
    ∷ word "passwd"
    ∷ word "secret"
    ∷ seq (word "pre") (seq dash (seq (word "shared") (seq dash (word "key"))))
    ∷ word "psk"
    ∷ []

assigned_words : List Re
unfolding psk_words codes ignore_case
assigned_words =
    psk_words
    ++ seq (word "auth") (seq gap (word "key"))
      ∷ seq (word "api") (seq gap (word "key"))
      ∷ word "token"
      ∷ word "passphrase"
      ∷ []

plain : Re → Re → Secret
plain before value = record { boundary = true; before = before; value = value; behind = eps }

-- `_ASSIGNMENTS`, in their order
assignments : List Secret
unfolding plain assign psk_words assigned_words codes ignore_case is_alnum
assignments =
    let bearer = chr (λ c. is_alnum c || c == b'.' || c == b'_' || c == b'-') in
    plain
      (seq (word "snmp")
        (seq gap (seq (word "server") (seq spaces (seq (word "community") spaces)))))
      visible
    ∷ plain
        (seq (alt (word "radius") (word "tacacs"))
          (seq gap (seq (word "server") (seq spaces (seq (word "key") spaces)))))
        visible
    ∷ plain (seq (word "community") assign) visible
    ∷ plain (seq (one_of_words assigned_words) assign) visible
    ∷ plain (seq (one_of_words psk_words) (seq spaces (opt (seq (plus (chr is_digit)) spaces))))
        visible
    ∷ plain (seq (word "bearer") spaces) (
        seq bearer (
          seq bearer
            (seq bearer (seq bearer (seq bearer (seq bearer (seq bearer (plus bearer))))))))
    ∷ []

-- `_URL_CREDENTIALS`
url_credentials : Secret
unfolding codes in_range fold_case is_digit
url_credentials =
    let letter = λ (c : ℕ). in_range b'a' b'z' (fold_case c) in
    let scheme = chr (λ c. letter c || is_digit c || c == b'+' || c == b'.' || c == b'-') in
    let user =
      chr (λ c. not (is_space c) && not (c == b'/') && not (c == b':') && not (c == b'@')) in
    let secret = chr (λ c. not (is_space c) && not (c == b'/') && not (c == b'@')) in
    record {
      boundary = true;
      before =
          seq (chr letter)
            (seq (star scheme) (seq (lit (codes "://")) (seq (plus user) (chr (λ c. c == b':')))));
      value = plus secret;
      behind = chr (λ c. c == b'@');
    }

-- What was matched in front of `rest`.
matched : Text → Text → Text
matched s rest = take (length s - length rest) s

-- A choice of the three parts, the preferred one: what is kept in front of the marker and behind it,
-- and the rest of the text.
first_behind : Text → List Text → Re → Option (Text × Text)
unfolding ends matched
first_behind s [] behind = none
first_behind s (mid ∷ mids) behind =
    let later = first_behind s mids behind in
    elim (ends behind mid) [ [] ↦ later | rest ∷ _ ↦ some (matched mid rest, rest) ]

first_value : Text → List Text → Secret → Option (Text × Text × Text)
unfolding first_behind matched ends
first_value s [] p = none
first_value s (mid ∷ mids) p =
    let later = first_value s mids p in
    elim (first_behind s (ends p.value mid) p.behind) [
      | none ↦ later
      | some (kept, rest) ↦ some (matched s mid, kept, rest)
    ]

module _ (is_word : ℕ → Bool) where
  -- `\b` in front of `c`, behind `prev`.
  at_boundary : Bool → ℕ → Bool
  at_boundary prev_is_word c = not (prev_is_word && is_word c) && (prev_is_word || is_word c)

  secret_at : Secret → Bool → Text → Option (Text × Text × Text)
  unfolding first_value ends at_boundary
  secret_at p prev [] = none
  secret_at p prev (c ∷ s) =
      if not p.boundary || at_boundary prev c
      then first_value (c ∷ s) (ends p.before (c ∷ s)) p
      else none

  ends_in_word : Bool → Text → Bool
  ends_in_word prev [] = prev
  ends_in_word prev (c ∷ s) = ends_in_word (is_word c) s

  -- `pattern.sub(...)` with the groups kept; one round of fuel for each character.
  hide_from : Secret → ℕ → Bool → Text → Text
  unfolding secret_at ends_in_word matched
  hide_from p zero prev s = s
  hide_from p (suc f) prev [] = []
  hide_from p (suc f) prev (c ∷ s) = elim (secret_at p prev (c ∷ s)) [
    | none ↦ c ∷ hide_from p f (is_word c) s
    | some (before, kept, rest) ↦
        before
        ++ (marker ++ (kept ++ hide_from p f (ends_in_word prev (matched (c ∷ s) rest)) rest))
  ]

  unfoldable pub hide : Secret → Text → Text
  unfolding hide_from
  hide p s = hide_from p (length s) false s

  hide_all : List Secret → Text → Text
  unfolding hide
  hide_all [] s = s
  hide_all (p ∷ ps) s = hide_all ps (hide p s)

  pub redacted_text : Text → Text
  unfolding hide_all hide replace_all pem_block hash url_credentials assignments codes
  redacted_text s =
      hide_all assignments
        (hide url_credentials (replace_all hash marker (replace_all pem_block marker s)))

  -- `redact_text`
  unfoldable pub redact_text : Text → Text × Bool
  unfolding redacted_text text_eq
  redact_text [] = ([], false)
  redact_text (c ∷ s) = let t = redacted_text (c ∷ s) in (t, not (text_eq t (c ∷ s)))
