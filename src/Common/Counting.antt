-- ===== src/Common/Counting.antt =====
-- tools/common.py: the counts of `summarize_states`.
use prisma_sdwan_mcp.Prelude.Text.{Text, text_eq, text_eq→eq}
use prisma_sdwan_mcp.Value.{Value, Fields}
use prisma_sdwan_mcp.Prelude.{
  if◌then◌else◌, Bool-cases, ℕ, suc, ◌+◌, String, ◌≡◌, refl, ◌∙◌, inl, inr, List, [], ◌∷◌, arith,
}
use prisma_sdwan_mcp.Common.{
  state_of, Counts, count_one, count_states, insert_count, sort_counts, summarize_states,
}

-- The count of one state.
unfoldable pub count_of : Text → Counts → ℕ
unfolding text_eq
count_of state [] = 0
count_of state ((t, n) ∷ rest) =
    let later = count_of state rest in if text_eq t state then n + later else later

-- How many items have the state.
unfoldable pub occurrences : (Value → Text) → List String → Text → List Fields → ℕ
unfolding text_eq state_of
occurrences repr fields state [] = 0
occurrences repr fields state (item ∷ rest) =
    let later = occurrences repr fields state rest in
    if text_eq (state_of repr fields item) state then suc later else later

count_one-count_of :
    (s t : Text) (cs : Counts)
    → count_of t (count_one s cs) ≡ (if text_eq s t then suc (count_of t cs) else count_of t cs)
unfolding count_one count_of
count_one-count_of s t [] = ground arith
count_one-count_of s t ((u, n) ∷ cs) = elim (Bool-cases (text_eq u s)) [
  | inl e ↦ let same : u ≡ s = text_eq→eq u s e in rw (count_one, e) (rw same (ground arith))
  | inr e ↦ rw (count_one, e) (ground (arith, count_one-count_of s t cs))
]

insert_count-count_of :
    (t : Text) (c : Text × ℕ) (cs : Counts) → count_of t (insert_count c cs) ≡ count_of t (c ∷ cs)
unfolding insert_count count_of
insert_count-count_of t c [] = refl
insert_count-count_of t (u, m) ((v, n) ∷ cs) = ground (arith, insert_count-count_of t (u, m) cs)

with_head :
    (t : Text) (c : Text × ℕ) (cs ds : Counts)
    → count_of t cs ≡ count_of t ds
    → count_of t (c ∷ cs) ≡ count_of t (c ∷ ds)
unfolding count_of
with_head t (u, n) cs ds e = rw e refl

no_counts :
    (repr : Value → Text) (fields : List String) (t : Text) (rs : List Fields)
    → occurrences repr fields t rs + count_of t [] ≡ occurrences repr fields t rs
unfolding count_of
no_counts repr fields t rs = omega arith

sort_counts-count_of : (t : Text) (cs : Counts) → count_of t (sort_counts cs) ≡ count_of t cs
unfolding sort_counts
sort_counts-count_of t [] = refl
sort_counts-count_of t (c ∷ cs) =
    insert_count-count_of t c (sort_counts cs)
    ∙ with_head t c (sort_counts cs) cs (sort_counts-count_of t cs)

count_states-count_of :
    (repr : Value → Text) (fields : List String) (t : Text) (rs : List Fields) (cs : Counts)
    → count_of t (count_states repr fields rs cs) ≡ occurrences repr fields t rs + count_of t cs
unfolding count_states occurrences
count_states-count_of repr fields t [] cs = omega arith
count_states-count_of repr fields t (r ∷ rs) cs =
    let s = state_of repr fields r in
    count_states-count_of repr fields t rs (count_one s cs)
    ∙ ground (arith, count_one-count_of s t cs)

-- `summarize_states` counts each state as often as an item has it.
pub summarize_states-occurrences :
    (repr : Value → Text) (fields : List String) (state : Text) (rs : List Fields)
    → count_of state (summarize_states repr fields rs) ≡ occurrences repr fields state rs
unfolding summarize_states
summarize_states-occurrences repr fields state rs =
    sort_counts-count_of state (count_states repr fields rs [])
    ∙ (count_states-count_of repr fields state rs [] ∙ no_counts repr fields state rs)
