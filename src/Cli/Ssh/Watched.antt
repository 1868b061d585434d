-- ===== src/Cli/Ssh/Watched.antt =====
-- cli/ssh.py: what the calls of a device leave alone while a command's output is read.
use prisma_sdwan_mcp.Prelude.{
  Bool-cases, Option-cases, ℕ, zero, suc, ◌≡◌, refl, ◌∙◌, inl, inr, Bool, Option, List, [], ◌∷◌,
}
use prisma_sdwan_mcp.Prelude.Text.{Text}
use prisma_sdwan_mcp.Prelude.Result.{Result, err, ok}
use prisma_sdwan_mcp.Cli.Ssh.Output.{
  Exception, Device, Run, resume, then_run, normalise_prompt, has_pagination_marker,
  completion_prompt, next_page, pages,
}
use prisma_sdwan_mcp.Cli.Ssh.Execute.{answer_then_prompt}

-- A part of the world that no call changes but the sending of a command and the disconnect.
pub record Quiet {S T : Type 0} (seen : S → T) (d : Device S) : Type 0 where
  pub on_find : (s : S) → seen (d.find_prompt s).1 ≡ seen s
  pub on_write : (t : Text) (s : S) → seen (d.write_channel t s).1 ≡ seen s
  pub on_read : (p : Text) (s : S) → seen (d.read_until p s).1 ≡ seen s

module _ {S T : Type 0} (seen : S → T) where
  abbrev pub Keeps : {A : Type 0} → Run S A → Type 0
  Keeps m = (s : S) → seen (m s).1 ≡ seen s

  pub resume-Keeps :
      {A B : Type 0} (out : Result Exception A × S) (f : A → Run S B)
      → ((a : A) → Keeps (f a))
      → seen (resume out f).1 ≡ seen out.1
  resume-Keeps (ok a, s) f h = h a s
  resume-Keeps (err e, s) f h = refl

  pub then_run-Keeps :
      {A B : Type 0} (m : Run S A) (f : A → Run S B)
      → Keeps m
      → ((a : A) → Keeps (f a))
      → Keeps (then_run m f)
  then_run-Keeps m f h k s = resume-Keeps (m s) f k ∙ h s

  module _ (d : Device S) (q : Quiet seen d) where
    pub completion_prompt-Keeps : Keeps (completion_prompt d)
    unfolding completion_prompt
    completion_prompt-Keeps = then_run-Keeps d.find_prompt _ q.on_find (λ raw s.
        elim (Option-cases (normalise_prompt raw)) [ inl e ↦ rw e refl | inr (p, e) ↦ rw e refl ])

    next_page-Keeps : (expect output : Text) → Keeps (next_page d expect output)
    unfolding next_page
    next_page-Keeps expect output =
        then_run-Keeps (d.write_channel (b' ' ∷ [])) _ (q.on_write _)
          (λ wrote. then_run-Keeps (d.read_until expect) _ (q.on_read expect) (λ more s. refl))

    pub pages-Keeps : (n : ℕ) (expect output : Text) → Keeps (pages d n expect output)
    unfolding pages
    pages-Keeps zero expect output s = elim (Bool-cases (has_pagination_marker output)) [
      | inl e ↦ rw e refl
      | inr e ↦ rw e refl
    ]
    pages-Keeps (suc n) expect output s = elim (Bool-cases (has_pagination_marker output)) [
      | inl e ↦
          rw (pages, e)
            (then_run-Keeps (next_page d expect output) (pages d n expect)
              (next_page-Keeps expect output) (pages-Keeps n expect) s)
      | inr e ↦ rw (pages, e) refl
    ]

    pub answer_then_prompt-Keeps :
        (is_word : ℕ → Bool) (cap : ℕ) (secrets : List (Option Text))
        (out : Result Exception Text × S)
        → seen (answer_then_prompt is_word d cap secrets out).1 ≡ seen out.1
    unfolding answer_then_prompt
    answer_then_prompt-Keeps is_word cap secrets (err e, s) = refl
    answer_then_prompt-Keeps is_word cap secrets (ok t, s) = q.on_find s
