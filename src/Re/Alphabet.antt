-- ===== src/Re/Alphabet.antt =====
-- What holds of every character that a pattern names holds of every character of its words.
use prisma_sdwan_mcp.Prelude.{==→eq, All, All-append, ℕ, ◌≡◌, true, [], ◌∷◌}
use prisma_sdwan_mcp.Prelude.Text.{Text}
use prisma_sdwan_mcp.Re.{Re, eps, chr, seq, alt, star, lazy, lit}
use prisma_sdwan_mcp.Re.Language.{
  Matches, m_eps, m_chr, m_seq, m_left, m_right, m_star_nil, m_star, m_lazy_nil, m_lazy,
}

-- Every character class of the pattern implies `P`.
abbrev pub Over : (ℕ → Type 0) → Re → Type 0
Over P eps = Unit
Over P (chr p) = (c : ℕ) → p c ≡ true → P c
Over P (seq a b) = Over P a × Over P b
Over P (alt a b) = Over P a × Over P b
Over P (star r) = Over P r
Over P (lazy r) = Over P r

pub Matches-Over : (P : ℕ → Type 0) {r : Re} {w : Text} → Over P r → Matches r w → All P w
Matches-Over P o m_eps = tt
Matches-Over P o (m_chr h) = (o _ h, tt)
Matches-Over P o (m_seq {u = u} {v = v} mu mv e) =
    rw e (All-append P u v (Matches-Over P o.0 mu) (Matches-Over P o.1 mv))
Matches-Over P o (m_left m) = Matches-Over P o.0 m
Matches-Over P o (m_right m) = Matches-Over P o.1 m
Matches-Over P o m_star_nil = tt
Matches-Over P o (m_star {u = u} {v = v} mu mv e) =
    rw e (All-append P u v (Matches-Over P o mu) (Matches-Over P o mv))
Matches-Over P o m_lazy_nil = tt
Matches-Over P o (m_lazy {u = u} {v = v} mu mv e) =
    rw e (All-append P u v (Matches-Over P o mu) (Matches-Over P o mv))

pub lit-Over : (P : ℕ → Type 0) (t : Text) → All P t → Over P (lit t)
lit-Over P [] h = tt
lit-Over P (c ∷ t) (p, h) = (λ d e. rw (==→eq d c e) p, lit-Over P t h)
