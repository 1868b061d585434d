-- ===== src/Cli/Ssh/Verdict.antt =====
-- cli/ssh.py: the line of an output that tells whether the device rejected the command.
use prisma_sdwan_mcp.Prelude.{
  is_empty, All, ℕ, ◌≡◌, refl, ◌∙◌, Bool, true, false, ◌||◌, Option, List, [], ◌∷◌, ◌++◌,
}
use prisma_sdwan_mcp.Prelude.Text.{Text, strip}
use prisma_sdwan_mcp.Cli.Ssh.Output.{
  splitlines, echoes, device_error, first_answer, is_device_error,
}

-- A line that is blank, or that holds the prompt: the device repeating the command.
abbrev pub is_skipped : Option Text → Text → Bool
is_skipped prompt line = is_empty (strip line) || echoes prompt line

module _ (is_word : ℕ → Bool) (prompt : Option Text) where
  first_answer-skipped :
      (skipped rest : List Text)
      → All (λ l. is_skipped prompt l ≡ true) skipped
      → first_answer is_word prompt (skipped ++ rest) ≡ first_answer is_word prompt rest
  unfolding first_answer
  first_answer-skipped [] rest h = refl
  first_answer-skipped (l ∷ skipped) rest (e, h) =
      rw (first_answer, e) (first_answer-skipped skipped rest h)

  -- The first line of the output that is neither blank nor an echo of the prompt decides, and the
  -- lines behind it do not matter.
  pub is_device_error-first :
      (output : Text) (skipped : List Text) (line : Text) (rest : List Text)
      → splitlines output ≡ skipped ++ line ∷ rest
      → All (λ l. is_skipped prompt l ≡ true) skipped
      → is_skipped prompt line ≡ false
      → is_device_error is_word output prompt ≡ device_error is_word (strip line)
  unfolding is_device_error first_answer
  is_device_error-first output skipped line rest h k n =
      rw (is_device_error, h)
        (first_answer-skipped skipped (line ∷ rest) k ∙ rw (first_answer, n) refl)
