-- ===== src/Response/Budget.antt =====
-- response.py: the replies of `collection_json` and the budget of bytes.
use prisma_sdwan_mcp.Errors.{Failure}
use prisma_sdwan_mcp.Prelude.{
  leb, leb→le, Bool-cases, length, ℕ, ◌+◌, ◌≤◌, ◌<◌, ◌≡◌, refl, ◌⊎◌, inl, inr, false, Option, none,
  some, List, [], ◌∷◌, ◌++◌, arith,
}
use prisma_sdwan_mcp.Prelude.Text.{Text}
use prisma_sdwan_mcp.Prelude.Result.{Result, ok, ◌>>=◌, chain_parts}
use prisma_sdwan_mcp.Config.{Env, get_max_page_size}
use prisma_sdwan_mcp.Value.{Value, dict, Fields}
use prisma_sdwan_mcp.Response.Outline.{json_bytes}
use prisma_sdwan_mcp.Response.Envelope.{payload, Taken, fitting, oversized, fits, take_fitting}
use prisma_sdwan_mcp.Response.Collection.{
  Listing, setting, page_limit, invalid_limit, invalid_cursor, budget_exceeded, stub, final_payload,
  reply_for, page_at, taken_at, page_of, response_budget, asked_limit, listing_from, from_start,
  with_limit, collection_json,
}
use prisma_sdwan_mcp.Response.Cursor.{decode_cursor}
use prisma_sdwan_mcp.Response.Pages.{
  IsTaken, take_fitting-IsTaken, IsMeasured, take_fitting-IsMeasured,
}

-- The page of the call, from the offset on, and the extra entries, both after compaction.
abbrev pub page_asked : Text → Listing → List Value → ℕ → ℕ → ℕ → List Value × Fields
page_asked now l records start limit budget =
    page_at (page_of now l records) l.full start limit budget l.extra records

-- The reply with a beginning of the page, which holds a record if the page does.
abbrev pub Beginning : Text → Listing → List Value → ℕ → List Value × Fields → Fields → Type 0
Beginning now l records start (page, extra) fs =
    (selected : List Value) × (rest : List Value) × (page ≡ selected ++ rest)
    × ((page ≡ []) ⊎ (1 ≤ length selected))
    × (fs ≡ final_payload (page_of now l records) extra selected (start + length selected))

-- A beginning of the page within the budget; or the error, if such a beginning is over it; or the stub
-- of the first record of the page, if this alone is over it.
abbrev pub IsWithin :
    (Value → Text) → Text → Listing → List Value → ℕ → ℕ → List Value × Fields → Fields → Type 0
IsWithin repr now l records start budget (page, extra) fs =
    ((json_bytes (dict fs) ≤ budget) × Beginning now l records start (page, extra) fs)
    ⊎ ((whole : Fields) × (budget < json_bytes (dict whole))
        × Beginning now l records start (page, extra) whole
        × (fs ≡ budget_exceeded l.tool))
    ⊎ ((r : Value) × (rest : List Value) × (page ≡ r ∷ rest)
        × (budget < json_bytes (dict (payload (page_of now l records) (r ∷ []) (start + 1) extra)))
        × (fs ≡ stub repr (page_of now l records) extra r (start + 1)))

-- The reply for a limit: the error if it is not allowed; else the error if the cursor cannot be read,
-- or a reply within the budget from the cursor's offset on.
abbrev pub IsLimited :
    (Value → Text) → Env → Text → Listing → List Value → ℕ → Option ℕ → Fields → Type 0
IsLimited repr env now l records most none fs = fs ≡ invalid_limit most l.tool
IsLimited repr env now l records most (some limit) fs =
    ((decode_cursor l.cursor (length records) l.tool ≡ none) × (fs ≡ invalid_cursor l.tool))
    ⊎ ((start : ℕ) × (decode_cursor l.cursor (length records) l.tool ≡ some start)
        × (budget : ℕ) × (response_budget env l.budget ≡ ok budget)
        × IsWithin repr now l records start budget (page_asked now l records start limit budget) fs)

abbrev pub IsBounded : (Value → Text) → Env → Text → Listing → List Value → Fields → Type 0
IsBounded repr env now l records fs =
    (most : ℕ) × (setting (get_max_page_size env) ≡ ok most)
    × (asked : Value) × (asked_limit env l.limit ≡ ok asked)
    × IsLimited repr env now l records most (page_limit most asked) fs

over : (a b : ℕ) → leb a b ≡ false → b < a
over a b h = ground arith

returned-eq : {fs gs : Fields} → ◌≡◌ {A = Result Failure Fields} (ok gs) (ok fs) → fs ≡ gs
returned-eq h = cc

module _ (repr : Value → Text) (env : Env) (now : Text) (l : Listing) (records : List Value) where
  taken-Beginning :
      (page : List Value) (extra : Fields) (start n : ℕ) (selected : List Value)
      → IsTaken page start (fitting selected n)
      → Beginning now l records start
          (page, extra)
          (final_payload (page_of now l records) extra selected n)
  taken-Beginning page extra start n selected (rest, parts, offset, progress) = (
    selected,
    rest,
    parts,
    elim progress [ inl e ↦ inl e | inr q ↦ inr (omega (arith, offset)) ],
    rw offset refl,
  )

  measured :
      (page : List Value) (extra : Fields) (start budget : ℕ) (t : Taken)
      → IsTaken page start t
      → IsMeasured (page_of now l records) extra budget t
      → IsWithin repr now l records start budget
          (page, extra)
          (reply_for repr (page_of now l records) extra budget t)
  unfolding reply_for fits
  measured page extra start budget (oversized r n) (rest, parts, offset) h =
      inr (inr (r, rest, parts, rw offset at (over _ _ h), rw offset refl))
  measured page extra start budget (fitting selected n) taken h =
      let begins = taken-Beginning page extra start n selected taken in
      let whole = final_payload (page_of now l records) extra selected n in
      elim (Bool-cases (leb (json_bytes (dict whole)) budget)) [
        | inl e ↦ rw e (inl (leb→le _ _ e, begins))
        | inr e ↦ rw e (inr (inl (whole, over _ _ e, begins, refl)))
      ]

  from_start-IsLimited :
      (most limit : ℕ) (start : Option ℕ) (fs : Fields)
      → decode_cursor l.cursor (length records) l.tool ≡ start
      → from_start repr env now l records limit start ≡ ok fs
      → IsLimited repr env now l records most (some limit) fs
  unfolding from_start listing_from taken_at
  from_start-IsLimited most limit none fs c h = inl (c, returned-eq h)
  from_start-IsLimited most limit (some start) fs c h =
      let (budget, read, tail) = chain_parts (response_budget env l.budget) _ h in
      let p = page_of now l records in
      let (page, extra) = page_asked now l records start limit budget in
      inr (
        start,
        c,
        budget,
        read,
        rw (returned-eq tail) (
            measured page extra start budget (take_fitting p extra budget page [] start)
              (take_fitting-IsTaken p extra budget start page)
              (take_fitting-IsMeasured p extra budget page [] start (inl refl))),
      )

  with_limit-IsLimited :
      (most : ℕ) (limit : Option ℕ) (fs : Fields)
      → with_limit repr env now l records most limit ≡ ok fs
      → IsLimited repr env now l records most limit fs
  unfolding with_limit
  with_limit-IsLimited most none fs h = returned-eq h
  with_limit-IsLimited most (some limit) fs h = from_start-IsLimited most limit _ fs refl h

  -- If collection_json returns a reply, then the settings could be read, and the reply is the error for
  -- a limit that is not allowed, or for a cursor that cannot be read, or, from the cursor's offset on:
  -- a beginning of the page that is within the budget of bytes and not empty if the page is not; or
  -- the error for the budget, if such a beginning is over it; or the stub of the first record of the
  -- page, if the payload of this record alone is over it. The page is what compaction leaves of it.
  pub collection_json-IsBounded :
      (fs : Fields)
      → collection_json repr env now l records ≡ ok fs
      → IsBounded repr env now l records fs
  unfolding collection_json
  collection_json-IsBounded fs h =
      let (most, largest, tail) =
        chain_parts (setting (get_max_page_size env))
          (λ m.
            asked_limit env l.limit >>= λ a. with_limit repr env now l records m (page_limit m a))
          h in
      let (asked, wanted, rest) =
        chain_parts (asked_limit env l.limit)
          (λ a. with_limit repr env now l records most (page_limit most a)) tail in
      (most, largest, asked, wanted, with_limit-IsLimited most (page_limit most asked) fs rest)
