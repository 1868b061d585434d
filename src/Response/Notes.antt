-- ===== src/Response/Notes.antt =====
-- response.py: the keys of the notes that the compaction adds to a reply.
use prisma_sdwan_mcp.Prelude.{
  Bool-cases, Option-cases, if_kept, ℕ, String, ◌≡◌, refl, ◌∙◌, inl, inr, Bool, true, false, none,
  some, List, [], ◌∷◌, map, arith, str_eq,
}
use prisma_sdwan_mcp.Prelude.Text.{Text}
use prisma_sdwan_mcp.Value.{Value, dict, Fields, end, field, get, has, set}
use prisma_sdwan_mcp.Common.{merge_fields}
use prisma_sdwan_mcp.Response.Compact.{in_keys, trim, lossless_notes, hold_back, compact_records}
use prisma_sdwan_mcp.Response.Lookup.{get-set_other}
use prisma_sdwan_mcp.Response.Envelope.{
  Page, as_dicts, held_back_reason, compact_page, compact_if_big,
}

abbrev pub note_keys : List String
note_keys =
    "shared_fields" ∷ "omitted_empty_fields" ∷ "omitted_fields" ∷ "omitted_fields_reason" ∷ []

pub has-none : (k : String) (fs : Fields) → has k fs ≡ false → get k fs ≡ none
unfolding has
has-none k fs h = elim (Option-cases (get k fs)) [
  | inl e ↦ e
  | inr (v, e) ↦ let no : true ≡ false = rw (has, e) at h in cc
]

pub none-has : (k : String) (fs : Fields) → get k fs ≡ none → has k fs ≡ false
unfolding has
none-has k fs e = rw (has, e) refl

-- An entry that is not among the later ones is kept.
get-merge_fields : (k : String) (d e : Fields) → get k e ≡ none → get k (merge_fields d e) ≡ get k d
unfolding merge_fields get
get-merge_fields k d end h = refl
get-merge_fields k d (field j v e) h = elim (Bool-cases (str_eq j k)) [
  | inl f ↦ let no : some v ≡ none = rw (get, f) at h in cc
  | inr f ↦ get-merge_fields k (set j v d) e (rw (get, f) at h) ∙ get-set_other j k v d f
]

module _ (k : String) (other : in_keys k note_keys ≡ false) where
  other_notes :
      (str_eq "shared_fields" k ≡ false)
      × (str_eq "omitted_empty_fields" k ≡ false)
      × (str_eq "omitted_fields" k ≡ false)
      × (str_eq "omitted_fields_reason" k ≡ false)
  unfolding in_keys
  other_notes = ground arith

  lossless_notes-none : (rs : List Fields) → get k (lossless_notes rs) ≡ none
  unfolding lossless_notes get
  lossless_notes-none rs = let (shared, empty, _, _) = other_notes in ground arith

  hold_back-none :
      (reason : Text) (trimmed : List Fields) (notes : Fields)
      → get k notes ≡ none
      → get k (hold_back reason trimmed notes).1 ≡ none
  unfolding hold_back
  hold_back-none reason trimmed notes h =
      let (_, _, omitted, given) = other_notes in
      let both : (v w : Value)
          → get k (set "omitted_fields_reason" v (set "omitted_fields" w notes)) ≡ none =
        λ v w.
          get-set_other "omitted_fields_reason" k _ _ given
          ∙ get-set_other "omitted_fields" k _ _ omitted
          ∙ h in
      if_kept (λ (r : List Fields × Fields). get k r.1 ≡ none) _ _ _ h (both _ _)

  compact_records-none :
      (reason : Text) (fits_budget : List Fields → Fields → Bool) (rs : List Fields)
      → get k (compact_records reason fits_budget rs).1 ≡ none
  unfolding compact_records get
  compact_records-none reason fits_budget [] = refl
  compact_records-none reason fits_budget (r ∷ rs) =
      let trimmed = trim (r ∷ rs) in
      let notes = lossless_notes (r ∷ rs) in
      if_kept (λ (x : List Fields × Fields). get k x.1 ≡ none) (fits_budget trimmed notes)
        (trimmed, notes) (hold_back reason trimmed notes) (lossless_notes-none (r ∷ rs))
        (hold_back-none reason trimmed notes (lossless_notes-none (r ∷ rs)))

  compact_page-none :
      (fits_budget : List Value → Fields → Bool) (page : List Value)
      → get k (compact_page fits_budget page).1 ≡ none
  unfolding compact_page get
  compact_page-none fits_budget page = elim (Option-cases (as_dicts page)) [
    | inl e ↦ rw (compact_page, e) refl
    | inr (rs, e) ↦
        rw (compact_page, e)
          (compact_records-none held_back_reason (λ cs notes. fits_budget (map dict cs) notes) rs)
  ]

  -- The notes of a page hide no other entry.
  pub compact_if_big-none :
      (p : Page) (start budget : ℕ) (page : List Value) (extra : Fields)
      → has k extra ≡ false
      → has k (compact_if_big p start budget page extra).1 ≡ false
  unfolding compact_if_big
  compact_if_big-none p start budget page extra h =
      if_kept (λ (x : List Value × Fields). has k x.1 ≡ false) _ _ _ h
        (none-has k _ (get-merge_fields k extra _ (compact_page-none _ page) ∙ has-none k extra h))
