-- ===== src/Response/Shape.antt =====
-- response.py: the two shapes of a reply, an answer and an error, each with the name of its tool.
pub mod Replies
use prisma_sdwan_mcp.Prelude.Int.{pos}
use prisma_sdwan_mcp.Prelude.{
  ltb, leb, Bool-cases, take, drop, ℕ, String, ◌≡◌, refl, ◌∙◌, ◌⊎◌, inl, inr, Bool, true, false,
  some, List, [], ◌∷◌, str_eq,
}
use prisma_sdwan_mcp.Prelude.Text.{Text, codes}
use prisma_sdwan_mcp.Value.{Value, bool, int, str, dict, Fields, end, field, get, has}
use prisma_sdwan_mcp.Response.{is_retryable_error, own_fields, structured_error}
use prisma_sdwan_mcp.Response.Compact.{in_keys}
use prisma_sdwan_mcp.Response.Envelope.{
  Page, own_entries, payload, identity, Taken, fitting, oversized,
}
use prisma_sdwan_mcp.Response.Collection.{budget_exceeded, stub, final_payload, reply_for, page_at}
use prisma_sdwan_mcp.Response.Errors.{structured_error-get}
use prisma_sdwan_mcp.Response.Notes.{compact_if_big-none}
use prisma_sdwan_mcp.Response.Lookup.{payload_keys, get-set_other, get-update_given, other_keys}
use prisma_sdwan_mcp.Response.Outline.{json_bytes}

-- An answer names its tool and has the version of the contract.
pub record IsAnswer (tool : Text) (fs : Fields) : Type 0 where
  pub its_tool : get "tool" fs ≡ some (str tool)
  pub version : get "contract_version" fs ≡ some (str (codes "2.0.0"))

-- An error names its tool and has a code, a message and the flag for a new try.
pub record IsError (tool : Text) (fs : Fields) : Type 0 where
  pub code : Text
  pub message : Text
  pub again : Bool
  pub its_tool : get "tool" fs ≡ some (str tool)
  pub its_code : get "code" fs ≡ some (str code)
  pub its_message : get "message" fs ≡ some (str message)
  pub its_retryable : get "retryable" fs ≡ some (bool again)

abbrev pub IsReply : Text → Fields → Type 0
IsReply tool fs = IsAnswer tool fs ⊎ IsError tool fs

pub structured_error-IsError :
    (code message tool : Text) (status_code : Value) (details : Fields)
    → IsError tool (structured_error code message tool status_code details)
unfolding own_fields has get
structured_error-IsError code message tool status_code details = record {
  code = code;
  message = message;
  again = is_retryable_error code status_code;
  its_tool = structured_error-get code message tool status_code details "tool" refl;
  its_code = structured_error-get code message tool status_code details "code" refl;
  its_message = structured_error-get code message tool status_code details "message" refl;
  its_retryable = structured_error-get code message tool status_code details "retryable" refl;
}

-- The key of the records and the extra entries are not the tool's name or the version.
pub record IsApart (key : String) (extra : Fields) : Type 0 where
  pub not_tool : str_eq key "tool" ≡ false
  pub not_version : str_eq key "contract_version" ≡ false
  pub no_tool : has "tool" extra ≡ false
  pub no_version : has "contract_version" extra ≡ false

-- The entries of a payload under any other key are the first three.
module _ (p : Page) (extra : Fields) (k : String) (own : in_keys k payload_keys ≡ false)
    (apart : str_eq p.key k ≡ false) (new : has k extra ≡ false) where
  abbrev first_entries : Fields
  first_entries =
      field "contract_version" (str (codes "2.0.0"))
        (field "tool" (str p.tool) (field "summary" (str p.summary) end))

  own_entries-other :
      (vs : List Value) (next_offset : ℕ)
      → get k (own_entries p vs next_offset) ≡ get k first_entries
  unfolding own_entries
  own_entries-other vs next_offset =
      let (_, retrieved, returned, total, truncated, _, _) = other_keys k own in
      get-set_other "retrieved_at" k _ _ retrieved
      ∙ get-set_other "returned_count" k _ _ returned
      ∙ get-set_other "total_count" k _ _ total
      ∙ get-set_other "truncated" k _ _ truncated
      ∙ get-set_other p.key k _ _ apart

  payload-other :
      (vs : List Value) (next_offset : ℕ)
      → get k (payload p vs next_offset extra) ≡ get k first_entries
  unfolding payload
  payload-other vs next_offset =
      let (cursor, _, _, _, _, _, _) = other_keys k own in
      elim (Bool-cases (ltb next_offset p.total)) [
        | inl e ↦
            rw (payload, e, get-update_given k extra _ new)
              (get-set_other "next_cursor" k _ _ cursor ∙ own_entries-other vs next_offset)
        | inr e ↦ rw (payload, e, get-update_given k extra _ new) (own_entries-other vs next_offset)
      ]

  stub-other :
      (repr : Value → Text) (r : Value) (next_offset : ℕ)
      → get k (stub repr p extra r next_offset) ≡ get k first_entries
  unfolding stub
  stub-other repr r next_offset =
      let (_, _, returned, _, truncated, warning, _) = other_keys k own in
      get-set_other "warning" k _ _ warning
      ∙ get-set_other "returned_count" k _ _ returned
      ∙ get-set_other "truncated" k _ _ truncated
      ∙ payload-other (dict (identity repr r) ∷ []) next_offset

  final_payload-other :
      (vs : List Value) (next_offset : ℕ)
      → get k (final_payload p extra vs next_offset) ≡ get k first_entries
  unfolding final_payload
  final_payload-other vs next_offset =
      let (_, _, _, _, _, _, summary) = other_keys k own in
      elim (Bool-cases (ltb next_offset p.total)) [
        | inl e ↦
            rw (final_payload, e)
              (get-set_other "summary" k _ _ summary ∙ payload-other vs next_offset)
        | inr e ↦ rw (final_payload, e) (payload-other vs next_offset)
      ]

module _ (repr : Value → Text) (p : Page) (extra : Fields) (apart : IsApart p.key extra) where
  stub-IsAnswer : (r : Value) (next_offset : ℕ) → IsAnswer p.tool (stub repr p extra r next_offset)
  unfolding in_keys get
  stub-IsAnswer r next_offset = record {
    its_tool = stub-other p extra "tool" refl apart.not_tool apart.no_tool repr r next_offset;
    version =
        stub-other p extra "contract_version" refl apart.not_version apart.no_version repr r
          next_offset;
  }

  final_payload-IsAnswer :
      (vs : List Value) (next_offset : ℕ) → IsAnswer p.tool (final_payload p extra vs next_offset)
  unfolding in_keys get
  final_payload-IsAnswer vs next_offset = record {
    its_tool = final_payload-other p extra "tool" refl apart.not_tool apart.no_tool vs next_offset;
    version =
        final_payload-other p extra "contract_version" refl apart.not_version apart.no_version vs
          next_offset;
  }

  pub reply_for-IsReply :
      (budget : ℕ) (t : Taken) → IsReply p.tool (reply_for repr p extra budget t)
  unfolding reply_for budget_exceeded
  reply_for-IsReply budget (oversized r next_offset) = inl (stub-IsAnswer r next_offset)
  reply_for-IsReply budget (fitting vs next_offset) =
      elim (Bool-cases (leb (json_bytes (dict (final_payload p extra vs next_offset))) budget)) [
        | inl e ↦ rw (reply_for, e) (inl (final_payload-IsAnswer vs next_offset))
        | inr e ↦ rw (reply_for, e) (inr (structured_error-IsError _ _ p.tool (int (pos 413)) end))
      ]

-- The compaction of a page keeps the extra entries apart.
pub page_at-IsApart :
    (p : Page) (full : Bool) (start limit budget : ℕ) (extra : Fields) (records : List Value)
    → IsApart p.key extra
    → IsApart p.key (page_at p full start limit budget extra records).1
unfolding page_at
page_at-IsApart p true start limit budget extra records apart = apart
page_at-IsApart p false start limit budget extra records apart =
    let page = take limit (drop start records) in
    record {
      not_tool = apart.not_tool;
      not_version = apart.not_version;
      no_tool =
          unfold in_keys in
          (compact_if_big-none "tool" refl p start budget page extra apart.no_tool);
      no_version =
          unfold in_keys in
          (compact_if_big-none "contract_version" refl p start budget page extra apart.no_version);
    }
