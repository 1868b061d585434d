-- ===== src/Response/Pages.antt =====
-- response.py: what the loop of `collection_json` takes of a page.
use prisma_sdwan_mcp.Prelude.{
  if◌then◌else◌, Bool-cases, length, is_empty, length-append, ℕ, suc, ◌+◌, ◌<◌, ◌≡◌, refl, ◌⊎◌, inl,
  inr, true, false, List, [], ◌∷◌, ◌++◌, append_assoc, arith,
}
use prisma_sdwan_mcp.Value.{Value, Fields}
use prisma_sdwan_mcp.Response.Envelope.{Page, Taken, fitting, oversized, fits, take_fitting}

-- The loop's result, if `selected` was selected before and `rs` is left of the page: a beginning of
-- the page and the offset behind it, or the first record if nothing else was selected.
abbrev pub IsTaken : List Value → ℕ → Taken → Type 0
IsTaken page start (fitting selected next_offset) =
    (rest : List Value) × (page ≡ selected ++ rest)
    × (next_offset ≡ start + length selected)
    × ((page ≡ []) ⊎ (start < next_offset))
IsTaken page start (oversized r next_offset) =
    (rest : List Value) × (page ≡ r ∷ rest) × (next_offset ≡ start + 1)

module _ (p : Page) (extra : Fields) (budget : ℕ) where
  take_fitting-from :
      (start : ℕ) (rs selected : List Value)
      → IsTaken
          (selected ++ rs)
          start
          (take_fitting p extra budget rs selected (start + length selected))
  unfolding take_fitting
  take_fitting-from start [] [] = ([], refl, refl, inl refl)
  take_fitting-from start [] (x ∷ xs) = ([], refl, refl, inr (omega arith))
  take_fitting-from start (r ∷ rs) selected =
      elim (Bool-cases (fits p extra budget (selected ++ r ∷ []) (suc (start + length selected)))) [
        | inl e ↦
            let longer : start + length (selected ++ r ∷ []) ≡ suc (start + length selected) =
              omega (arith, length-append selected (r ∷ [])) in
            let later =
              rw (append_assoc selected (r ∷ []) rs, longer) at
                (take_fitting-from start rs (selected ++ r ∷ [])) in
            rw (take_fitting, e) later
        | inr e ↦ rw (take_fitting, e) (kept start r rs selected)
      ]
    where
      kept :
          (start : ℕ) (r : Value) (rs selected : List Value)
          → IsTaken (selected ++ r ∷ rs) start (
              if is_empty selected
              then oversized r (suc (start + length selected))
              else fitting selected (start + length selected))
      kept start r rs [] = (rs, refl, omega arith)
      kept start r rs (x ∷ xs) = (r ∷ rs, refl, refl, inr (omega arith))

  -- The loop takes a beginning of the page that holds at least one record, if there is one, or its
  -- first record.
  pub take_fitting-IsTaken :
      (start : ℕ) (page : List Value)
      → IsTaken page start (take_fitting p extra budget page [] start)
  take_fitting-IsTaken start page =
      let same : start + 0 ≡ start = omega arith in rw same at (take_fitting-from start page [])

  -- What the loop takes is within the budget, or its first record alone is not.
  abbrev pub IsMeasured : Taken → Type 0
  IsMeasured (fitting [] next_offset) = Unit
  IsMeasured (fitting (r ∷ rs) next_offset) = fits p extra budget (r ∷ rs) next_offset ≡ true
  IsMeasured (oversized r next_offset) = fits p extra budget (r ∷ []) next_offset ≡ false

  pub take_fitting-IsMeasured :
      (rs selected : List Value) (next_offset : ℕ)
      → (selected ≡ []) ⊎ (fits p extra budget selected next_offset ≡ true)
      → IsMeasured (take_fitting p extra budget rs selected next_offset)
  unfolding take_fitting
  take_fitting-IsMeasured [] [] next_offset h = tt
  take_fitting-IsMeasured [] (x ∷ xs) next_offset (inl e) = cc
  take_fitting-IsMeasured [] (x ∷ xs) next_offset (inr h) = h
  take_fitting-IsMeasured (r ∷ rs) selected next_offset h =
      elim (Bool-cases (fits p extra budget (selected ++ r ∷ []) (suc next_offset))) [
        | inl e ↦
            rw (take_fitting, e)
              (take_fitting-IsMeasured rs (selected ++ r ∷ []) (suc next_offset) (inr e))
        | inr e ↦ rw (take_fitting, e) (kept selected h e)
      ]
    where
      kept :
          (selected : List Value)
          → (selected ≡ []) ⊎ (fits p extra budget selected next_offset ≡ true)
          → fits p extra budget (selected ++ r ∷ []) (suc next_offset) ≡ false
          → IsMeasured (
              if is_empty selected
              then oversized r (suc next_offset)
              else fitting selected next_offset)
      kept [] h e = e
      kept (x ∷ xs) (inl e') e = cc
      kept (x ∷ xs) (inr h) e = h
