-- ===== src/Cli/Redact/Flag.antt =====
-- cli/redact.py: the flag of a redaction.
use prisma_sdwan_mcp.Prelude.{
  Bool-cases, true-false, ℕ, ◌≡◌, refl, sym, ◌∙◌, ◌≢◌, ◌↔◌, inl, inr, Bool, true, [], ◌∷◌,
}
use prisma_sdwan_mcp.Prelude.Text.{Text, text_eq, text_eq→eq, text_eq_refl}
use prisma_sdwan_mcp.Cli.Redact.{redacted_text, redact_text}

-- The flag is set exactly when the text was changed.
pub redact_text-flag :
    (is_word : ℕ → Bool) (s : Text)
    → ((redact_text is_word s).1 ≡ true) ↔ ((redact_text is_word s).0 ≢ s)
unfolding redact_text
redact_text-flag is_word [] = (λ h. cc, λ h. absurd (h refl))
redact_text-flag is_word (c ∷ s) =
    elim (Bool-cases (text_eq (redacted_text is_word (c ∷ s)) (c ∷ s))) [
      | inl e ↦
          let same = text_eq→eq (redacted_text is_word (c ∷ s)) (c ∷ s) e in
          (λ h. cc (rw e at h), λ h. absurd (h same))
      | inr e ↦ (
        λ h k.
            let k' : redacted_text is_word (c ∷ s) ≡ c ∷ s = k in
            let t : text_eq (redacted_text is_word (c ∷ s)) (c ∷ s) ≡ true =
              rw k' (text_eq_refl (c ∷ s)) in
            absurd (true-false (sym t ∙ e)),
        λ h. rw e refl,
      )
    ]
