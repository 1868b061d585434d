-- ===== src/Cli/Policy/Pipes.antt =====
-- What can stand around the pipe of an accepted command.
use prisma_sdwan_mcp.Prelude.{
  ==→eq, all, All, All-append, ◌≡◌, refl, ◌⊎◌, inl, inr, true, false, not, [], ◌∷◌, ◌++◌,
  append-nil, append_assoc,
}
use prisma_sdwan_mcp.Prelude.Text.{Text, codes, is_space, is_alnum}
use prisma_sdwan_mcp.Re.{Re, seq, plus, lit}
use prisma_sdwan_mcp.Re.Language.{Matches, seq_parts, chr_word, lit_word, opt_parts}
use prisma_sdwan_mcp.Re.Alphabet.{Over, Matches-Over}
use prisma_sdwan_mcp.Cli.Policy.{
  one_of, space, safe_argument, grep_char, grep_filter, Family, dump, inspect, ping, tcpping, dig,
  family_name, read_only_pattern, pattern_of, validate_text,
}
use prisma_sdwan_mcp.Cli.Policy.Accepted.{validate_text_sound}
use prisma_sdwan_mcp.Cli.Policy.Characters.{
  named, filter_tail, named-name, Absent, spaces-Over, arguments-Over, word-Over, tail-Over,
  diagnostic-Over,
}

abbrev pipe : Text
pipe = b'|' ∷ []

abbrev pub NoPipe : Text → Type 0
NoPipe s = All (λ c. one_of pipe c ≡ false) s

pub record IsFiltered (pre post : Text) : Type 0 where
  pub before : NoPipe pre
  pub behind : NoPipe post
  pub spaces : Text
  pub rest : Text
  pub blank : All (λ c. is_space c ≡ true) spaces
  pub to_grep : post ≡ spaces ++ (codes "grep" ++ rest)

-- A text without a pipe, or one that pipes once, into `grep`.
abbrev pub PipeOnce : Text → Type 0
PipeOnce c = NoPipe c ⊎ ((pre post : Text) × (c ≡ pre ++ b'|' ∷ post) × IsFiltered pre post)

pipe_apart : all (λ c. not (named c)) pipe ≡ true
unfolding named grep_char is_alnum is_space one_of codes
pipe_apart = refl

word-NoPipe : (r : Re) (w : Text) → Over (Absent pipe pipe_apart) r → Matches r w → NoPipe w
word-NoPipe r w o m = Matches-Over (Absent pipe pipe_apart) o m

append-NoPipe : (u v : Text) → NoPipe u → NoPipe v → NoPipe (u ++ v)
append-NoPipe u v h k = All-append (Absent pipe pipe_apart) u v h k

-- The filter's word, split at its pipe.
filter_parts :
    (w : Text)
    → Matches grep_filter w
    → (u post : Text) × (w ≡ u ++ b'|' ∷ post) × IsFiltered u post
filter_parts w m =
    let (u, v, mu, mv, e) = seq_parts m in
    let (bar, post, mb, mp, l) = seq_parts mv in
    let (c, h, k) = chr_word mb in
    let is_bar : c ≡ b'|' = ==→eq c b'|' h in
    let (spaces, word, ms, mw, n) = seq_parts mp in
    let (grep, rest, mg, mr, o) = seq_parts mw in
    (
      u,
      post,
      rw (e, l, k, is_bar) refl,
      record {
        before = word-NoPipe (plus space) u (spaces-Over pipe pipe_apart) mu;
        behind = word-NoPipe filter_tail post (tail-Over pipe pipe_apart) mp;
        spaces = spaces;
        rest = rest;
        blank = Matches-Over (λ d. is_space d ≡ true) (λ d x. x, λ d x. x) ms;
        to_grep = rw (n, o, lit_word (codes "grep") mg) refl;
      },
    )

read_only-PipeOnce : (f : Family) (c : Text) → Matches (read_only_pattern f) c → PipeOnce c
read_only-PipeOnce f c m =
    let (name, v, mn, mv, e) = seq_parts m in
    let (args, filt, ma, mf, l) = seq_parts mv in
    let head =
      append-NoPipe name args
        (word-NoPipe (lit (codes (family_name f))) name
          (word-Over pipe pipe_apart (codes (family_name f)) (named-name f)) mn)
        (word-NoPipe (plus (seq (plus space) safe_argument)) args (arguments-Over pipe pipe_apart)
          ma) in
    elim (opt_parts mf) [
      | inr none_left ↦ inl (rw (e, l, none_left, append-nil) head)
      | inl k ↦
          let (u, post, n, fl) = filter_parts filt k in
          inr (
            (name ++ args) ++ u,
            post,
            rw (e, l, n, append_assoc) (rw append_assoc refl),
            record {
              before = append-NoPipe (name ++ args) u head fl.before;
              behind = fl.behind;
              spaces = fl.spaces;
              rest = fl.rest;
              blank = fl.blank;
              to_grep = fl.to_grep;
            },
          )
    ]

form-PipeOnce : (f : Family) (c : Text) → Matches (pattern_of f) c → PipeOnce c
unfolding pattern_of
form-PipeOnce dump c m = read_only-PipeOnce dump c m
form-PipeOnce inspect c m = read_only-PipeOnce inspect c m
form-PipeOnce ping c m =
    inl (word-NoPipe (pattern_of ping) c (diagnostic-Over pipe pipe_apart ping tt) m)
form-PipeOnce tcpping c m =
    inl (word-NoPipe (pattern_of tcpping) c (diagnostic-Over pipe pipe_apart tcpping tt) m)
form-PipeOnce dig c m =
    inl (word-NoPipe (pattern_of dig) c (diagnostic-Over pipe pipe_apart dig tt) m)

-- An accepted command has no pipe, or exactly one, behind which blanks and `grep` stand.
pub approved-PipeOnce : (c : Text) → (validate_text c).allowed ≡ true → PipeOnce c
approved-PipeOnce c h =
    let found = validate_text_sound c h in form-PipeOnce found.family c found.word
