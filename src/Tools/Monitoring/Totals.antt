-- ===== src/Tools/Monitoring/Totals.antt =====
-- tools/monitoring.py: the counts of `_flow_digest`.
use prisma_sdwan_mcp.Prelude.{
  leb, leb→le, Bool-cases, length, All, ℕ, suc, ◌+◌, ◌≤◌, String, ◌≡◌, refl, ap, ◌∙◌, inl, inr,
  List, [], ◌∷◌, arith,
}
use prisma_sdwan_mcp.Prelude.Text.{Text, text_eq}
use prisma_sdwan_mcp.Prelude.Int.{ℤ}
use prisma_sdwan_mcp.Value.{Value, Fields}
use prisma_sdwan_mcp.Common.{Counts, count_one}
use prisma_sdwan_mcp.Tools.Monitoring.Flows.{label, count_labels, insert_common, most_common}

-- The sum of the numbers.
unfoldable pub total : Counts → ℕ
total [] = 0
total (c ∷ cs) = c.1 + total cs

-- No number is greater than one before it.
abbrev pub IsDescending : Counts → Type 0
IsDescending [] = Unit
IsDescending (c ∷ cs) = All (λ d. d.1 ≤ c.1) cs × IsDescending cs

count_one-total : (t : Text) (cs : Counts) → total (count_one t cs) ≡ suc (total cs)
unfolding total count_one
count_one-total t [] = refl
count_one-total t (c ∷ cs) = elim (Bool-cases (text_eq c.0 t)) [
  | inl e ↦ rw e (omega arith)
  | inr e ↦ rw e (omega (arith, count_one-total t cs))
]

insert_common-total : (c : Text × ℕ) (cs : Counts) → total (insert_common c cs) ≡ c.1 + total cs
unfolding total insert_common
insert_common-total c [] = refl
insert_common-total c (d ∷ ds) = elim (Bool-cases (leb d.1 c.1)) [
  | inl e ↦ rw e refl
  | inr e ↦ rw e (omega (arith, insert_common-total c ds))
]

most_common-total : (cs : Counts) → total (most_common cs) ≡ total cs
unfolding total most_common
most_common-total [] = refl
most_common-total (c ∷ cs) =
    insert_common-total c (most_common cs) ∙ ap (λ n. c.1 + n) (most_common-total cs)

insert_common-All :
    (P : Text × ℕ → Type 0) (c : Text × ℕ) (cs : Counts)
    → P c
    → All P cs
    → All P (insert_common c cs)
unfolding insert_common
insert_common-All P c [] p h = (p, tt)
insert_common-All P c (d ∷ ds) p (q, h) = elim (Bool-cases (leb d.1 c.1)) [
  | inl e ↦ rw e (p, (q, h))
  | inr e ↦ rw e (q, insert_common-All P c ds p h)
]

raised : (m n : ℕ) (cs : Counts) → m ≤ n → All (λ d. d.1 ≤ m) cs → All (λ d. d.1 ≤ n) cs
raised m n [] le h = tt
raised m n (c ∷ cs) le (q, h) = (omega arith, raised m n cs le h)

insert_common-IsDescending :
    (c : Text × ℕ) (cs : Counts) → IsDescending cs → IsDescending (insert_common c cs)
unfolding insert_common
insert_common-IsDescending c [] h = (tt, tt)
insert_common-IsDescending c (d ∷ ds) (below_d, h) = elim (Bool-cases (leb d.1 c.1)) [
  | inl e ↦ rw e (((leb→le _ _ e, raised d.1 c.1 ds (leb→le _ _ e) below_d), (below_d, h)))
  | inr e ↦ rw e (
    insert_common-All (λ x. x.1 ≤ d.1) c ds (ground (arith, e)) below_d,
    insert_common-IsDescending c ds h,
  )
]

most_common-IsDescending : (cs : Counts) → IsDescending (most_common cs)
unfolding most_common
most_common-IsDescending [] = tt
most_common-IsDescending (c ∷ cs) =
    insert_common-IsDescending c (most_common cs) (most_common-IsDescending cs)

module _ (repr : Value → Text) (truncate : Text → ℤ) where
  count_labels-total :
      (ks : List String) (rows : List Fields) (counts : Counts)
      → total (count_labels repr truncate ks rows counts) ≡ length rows + total counts
  unfolding count_labels
  count_labels-total ks [] counts = omega arith
  count_labels-total ks (row ∷ rows) counts =
      let one = count_one-total (label repr truncate ks row) counts in
      omega (arith, one, count_labels-total ks rows (count_one (label repr truncate ks row) counts))

-- The counts by application, by path and by action of a digest, each add up to the number of the
-- flows, and are in descending order.
pub flow_counts-total :
    (repr : Value → Text) (truncate : Text → ℤ) (ks : List String) (rows : List Fields)
    → (total (most_common (count_labels repr truncate ks rows [])) ≡ length rows)
      × IsDescending (most_common (count_labels repr truncate ks rows []))
unfolding total
flow_counts-total repr truncate ks rows = (
  most_common-total _ ∙ count_labels-total repr truncate ks rows [] ∙ omega arith,
  most_common-IsDescending _,
)
