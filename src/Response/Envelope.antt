-- ===== src/Response/Envelope.antt =====
-- response.py: `_payload`, `_identity` and the pages of `collection_json`. `repr` is Python's `str` of
-- a list or an object, and `now` the time stamp, which is the same for all payloads of a call.
use prisma_sdwan_mcp.Prelude.{
  ltb, leb, if◌then◌else◌, length, take, is_empty, ℕ, suc, ◌+◌, ◌*◌, String, Bool, not, ◌||◌,
  Option, none, some, List, [], ◌∷◌, ◌++◌, map,
}
use prisma_sdwan_mcp.Prelude.Text.{Text, codes}
use prisma_sdwan_mcp.Prelude.Int.{pos}
use prisma_sdwan_mcp.Value.{
  Value, bool, int, str, list, dict, Fields, end, field, of_items, is_null, set, truthy,
}
use prisma_sdwan_mcp.Resolver.Records.{project, to_text}
use prisma_sdwan_mcp.Common.{merge_fields}
use prisma_sdwan_mcp.Response.Outline.{json_bytes}
use prisma_sdwan_mcp.Response.Compact.{compact_records}
use prisma_sdwan_mcp.Response.Cursor.{encode_cursor}

-- The arguments that every payload of a call shares.
pub record Page : Type 0 where
  pub tool : Text
  pub summary : Text
  pub key : String
  -- the number of all records
  pub total : ℕ
  pub now : Text

abbrev pub count : ℕ → Value
count n = int (pos n)

-- `result.update({k: v for k, v in extra.items() if v is not None})`
unfoldable pub update_given : Fields → Fields → Fields
update_given end out = out
update_given (field k v fs) out =
    let kept = update_given fs (set k v out) in
    let skipped = update_given fs out in if is_null v then skipped else kept

-- `_payload` before the cursor and the extra entries are added.
unfoldable pub own_entries : Page → List Value → ℕ → Fields
own_entries p items_ next_offset = set "retrieved_at" (str p.now) (
    set "returned_count" (count (length items_)) (
      set "total_count" (count p.total) (
        set "truncated" (bool (ltb next_offset p.total)) (
          set p.key (list (of_items items_)) (
            field "contract_version" (str (codes "2.0.0"))
              (field "tool" (str p.tool) (field "summary" (str p.summary) end)))))))

-- `_payload`
unfoldable pub payload : Page → List Value → ℕ → Fields → Fields
payload p items_ next_offset extra = update_given extra (
    if ltb next_offset p.total
    then set "next_cursor" (str (encode_cursor next_offset p.tool))
        (own_entries p items_ next_offset)
    else own_entries p items_ next_offset)

abbrev identity_fields : List String
identity_fields =
    "id" ∷ "name" ∷ "display_name" ∷ "site_id" ∷ "element_id" ∷ "interface_id" ∷ "waninterface_id"
    ∷ "bgppeer_id" ∷ "vpnlink_id" ∷ []

or_unidentified : Fields → Fields
unfolding codes
or_unidentified end = field "id" (str (codes "unidentified-item")) end
or_unidentified (field k v fs) = field k v fs

-- `_identity`
unfoldable pub identity : (Value → Text) → Value → Fields
unfolding project or_unidentified to_text
identity repr (dict fs) = or_unidentified (project identity_fields fs)
identity repr v = field "value" (str (take 256 (to_text repr v))) end

-- What the loop over the records of a page ends with: the records that fit and the offset behind
-- them, or the first record if not even that one fits.
pub data Taken : Type 0 where
  fitting : List Value → (next_offset : ℕ) → Taken
  oversized : Value → (next_offset : ℕ) → Taken

module _ (p : Page) (extra : Fields) (budget : ℕ) where
  -- Whether the payload of the records is within the budget of bytes.
  unfoldable pub fits : List Value → ℕ → Bool
  fits selected next_offset = leb (json_bytes (dict (payload p selected next_offset extra))) budget

  unfoldable pub take_fitting : List Value → List Value → ℕ → Taken
  take_fitting [] selected next_offset = fitting selected next_offset
  take_fitting (r ∷ rs) selected next_offset =
      let more = take_fitting rs (selected ++ r ∷ []) (suc next_offset) in
      if fits (selected ++ r ∷ []) (suc next_offset)
      then more
      else if is_empty selected
      then oversized r (suc next_offset)
      else fitting selected next_offset

-- The records as objects, if all of them are objects.
unfoldable pub as_dicts : List Value → Option (List Fields)
as_dicts [] = some []
as_dicts (dict fs ∷ vs) = elim (as_dicts vs) [ none ↦ none | some rs ↦ some (fs ∷ rs) ]
as_dicts (v ∷ vs) = none

abbrev pub held_back_reason : Text
unfolding codes
held_back_reason =
    codes
      "held back to fit more records in one response; these neither identify the record nor report its condition. Re-request with detail='full' to get every field"

-- `_compact_records` on the records of a page, whatever they are.
unfoldable pub compact_page : (List Value → Fields → Bool) → List Value → List Value × Fields
unfolding compact_records as_dicts
compact_page budget_fits page = elim (as_dicts page) [
  | none ↦ (page, end)
  | some rs ↦
      let compacted =
        compact_records held_back_reason (λ cs notes. budget_fits (map dict cs) notes) rs in
      (map dict compacted.0, compacted.1)
]

-- The page and the extra entries with which the loop runs, unless every detail is asked for.
unfoldable pub compact_if_big : Page → ℕ → ℕ → List Value → Fields → List Value × Fields
compact_if_big p start budget page extra =
    let is_small : List Value → Fields → Bool = λ candidates notes.
      leb
        (4
          * json_bytes
              (dict (payload p candidates (start + length candidates) (merge_fields extra notes))))
        budget in
    let compacted = compact_page is_small page in
    if is_empty page || is_small page end || not (truthy (dict compacted.1))
    then (page, extra)
    else (compacted.0, merge_fields extra compacted.1)
