-- ===== src/Cli/Ssh/Output.antt =====
-- cli/ssh.py: reading a command's output to completion, and what a device's answer means.
use prisma_sdwan_mcp.Prelude.{
  ltb, ◌==◌, if◌then◌else◌, any, keep, is_empty, ℕ, zero, suc, ◌≡◌, refl, Bool, true, false, not,
  ◌&&◌, ◌||◌, Option, none, some, List, [], ◌∷◌, ◌++◌,
}
use prisma_sdwan_mcp.Prelude.Text.{Text, codes, in_range, is_space, contains, strip}
use prisma_sdwan_mcp.Prelude.Result.{Result, err, ok}
use prisma_sdwan_mcp.Re.{Re, chr, seq, alt, star, ends, search_in, replace_all, ignore_case}

-- An exception, by its class and its text.
pub record Exception : Type 0 where
  pub class_name : Text
  pub message : Text

-- An open connection, over a state of the world. A read stops at the prompt or at a pager's mark.
pub record Device (S : Type 0) : Type 0 where
  pub find_prompt : S → Result Exception Text × S
  pub send_command : (command prompt : Text) → S → Result Exception Text × S
  pub write_channel : Text → S → Result Exception (Unit {0}) × S
  pub read_until : (prompt : Text) → S → Result Exception Text × S
  pub disconnect : S → Result Exception (Unit {0}) × S

abbrev pub Run : Type 0 → Type 0 → Type 0
Run S A = S → Result Exception A × S

abbrev pub resume :
    {S A B : Type 0} → Result Exception A × S → (A → Run S B) → Result Exception B × S
resume (ok a, s) f = f a s
resume (err e, s) f = (err e, s)

abbrev pub then_run : {S A B : Type 0} → Run S A → (A → Run S B) → Run S B
then_run m f s = resume (m s) f

-- The steps of a chain that returned.
resume_parts :
    {S A B : Type 0} (m : Result Exception A × S) (f : A → Run S B) {b : B} {s : S}
    → resume m f ≡ (ok b, s)
    → (a : A) × (mid : S) × (m ≡ (ok a, mid)) × (f a mid ≡ (ok b, s))
resume_parts (ok a, mid) f h = (a, mid, refl, h)
resume_parts (err e, mid) f h = cc

pub then_run_parts :
    {S A B : Type 0} (m : Run S A) (f : A → Run S B) {b : B} (s : S) {s' : S}
    → then_run m f s ≡ (ok b, s')
    → (a : A) × (mid : S) × (m s ≡ (ok a, mid)) × (f a mid ≡ (ok b, s'))
then_run_parts m f s h = resume_parts (m s) f h

abbrev pub raise : {S A : Type 0} → Exception → Run S A
raise e s = (err e, s)

abbrev pub max_pagination_pages : ℕ
max_pagination_pages = 100

-- `_PAGINATION_MARKER`
pagination_marker : Re
unfolding ignore_case codes
pagination_marker = alt (ignore_case (codes "--more--")) (ignore_case (codes "(q)uit"))

-- `_CONTROL_CHARS.sub("", raw)` and `strip`; `none` for a prompt that is empty then.
unfoldable pub normalise_prompt : Text → Option Text
unfolding strip
normalise_prompt raw =
    let text = strip (keep (λ c. not (ltb c 32 || c == 127)) raw) in
    if is_empty text then none else some text

is_line_end : ℕ → Bool
unfolding in_range
is_line_end c = in_range 10 13 c || in_range 28 30 c || c == 0x85 || c == 0x2028 || c == 0x2029

-- `splitlines`: the line so far, and whether a carriage return stands just before.
lines_from : Bool → Text → Text → List Text
unfolding is_line_end
lines_from after_cr line [] = if is_empty line then [] else line ∷ []
lines_from after_cr line (c ∷ s) =
    let joined = after_cr && c == 10 in
    let closes = is_line_end c && not joined in
    let rest = lines_from (c == 13) (if closes || joined then [] else line ++ c ∷ []) s in
    if closes then line ∷ rest else rest

unfoldable pub splitlines : Text → List Text
unfolding lines_from
splitlines s = lines_from false [] s

error_words : Re
unfolding ignore_case codes
error_words = alt (ignore_case (codes "error")) (
    alt (ignore_case (codes "invalid")) (
      alt (ignore_case (codes "unknown")) (
        alt (ignore_case (codes "unrecognized")) (
          alt (ignore_case (codes "incomplete")) (
            alt (ignore_case (codes "failed")) (
              alt (ignore_case (codes "permission denied"))
                (ignore_case (codes "command not found"))))))))

-- `prompt and prompt in line`
unfoldable pub echoes : Option Text → Text → Bool
unfolding contains
echoes none line = false
echoes (some p) line = not (is_empty p) && contains line p

module _ (is_word : ℕ → Bool) where
  word_ends : Text → Bool
  word_ends [] = true
  word_ends (c ∷ s) = not (is_word c)

  -- `_DEVICE_ERROR.match(line)`: one of the words, at the line's start, with a boundary behind it.
  unfoldable pub device_error : Text → Bool
  unfolding word_ends error_words ends is_space
  device_error line = any word_ends (ends (seq (star (chr is_space)) error_words) line)

  unfoldable pub first_answer : Option Text → List Text → Bool
  unfolding device_error echoes strip
  first_answer prompt [] = false
  first_answer prompt (line ∷ rest) =
      let later = first_answer prompt rest in
      if is_empty (strip line) || echoes prompt line then later else device_error (strip line)

  -- `_is_device_error`
  unfoldable pub is_device_error : Text → Option Text → Bool
  unfolding first_answer splitlines
  is_device_error output prompt = first_answer prompt (splitlines output)

unfoldable pub has_pagination_marker : Text → Bool
unfolding pagination_marker search_in
has_pagination_marker output = search_in pagination_marker output

command_error : Text → Exception
unfolding codes
command_error message = record { class_name = codes "IONCommandError"; message = message }

module _ {S : Type 0} (d : Device S) where
  -- `_completion_pattern`: the prompt from which the stopping pattern is built.
  unfoldable pub completion_prompt : Run S Text
  unfolding normalise_prompt command_error codes
  completion_prompt = then_run d.find_prompt (λ raw. elim (normalise_prompt raw) [
    | none ↦ raise (command_error (codes "device did not present a shell prompt"))
    | some p ↦ λ s. (ok p, s)
  ])

  -- One round of the loop: the mark is taken out, and the next page is asked for and put behind.
  unfoldable pub next_page : Text → Text → Run S Text
  unfolding replace_all pagination_marker
  next_page expect output = then_run (d.write_channel (b' ' ∷ [])) (λ done.
      then_run (d.read_until expect)
        (λ more s. (ok (replace_all pagination_marker [] output ++ more), s)))

  -- The loop of `_send_command_with_pagination`, with the pages that may still be asked for.
  unfoldable pub pages : ℕ → Text → Text → Run S Text
  unfolding has_pagination_marker command_error next_page codes
  pages zero expect output s =
      if has_pagination_marker output
      then (err (command_error (codes "CLI output pagination exceeded the safety limit")), s)
      else (ok output, s)
  pages (suc left) expect output s = elim (has_pagination_marker output) [
    | false ↦ (ok output, s)
    | true ↦ then_run (next_page expect output) (pages left expect) s
  ]

  unfoldable pub send_command_with_pagination : Text → Run S Text
  unfolding completion_prompt pages
  send_command_with_pagination command =
      then_run completion_prompt
        (λ expect. then_run (d.send_command command expect) (pages max_pagination_pages expect))
