-- ===== src/Response/Shape/Replies.antt =====
-- response.py: the shape of what `collection_json` and `single_json` return.
use prisma_sdwan_mcp.Prelude.Int.{pos}
use prisma_sdwan_mcp.Prelude.{
  leb, if_kept, ℕ, String, ◌≡◌, refl, ◌∙◌, subst, inl, inr, false, ◌&&◌, Option, none, some, List,
  [], ◌∷◌, str_eq,
}
use prisma_sdwan_mcp.Prelude.Text.{Text, codes}
use prisma_sdwan_mcp.Prelude.Result.{Result, ok, returned_eq, chain_kept}
use prisma_sdwan_mcp.Errors.{Failure}
use prisma_sdwan_mcp.Config.{Env, get_max_response_bytes, get_max_page_size}
use prisma_sdwan_mcp.Value.{Value, int, str, dict, Fields, end, field, get, has}
use prisma_sdwan_mcp.Response.Compact.{in_keys}
use prisma_sdwan_mcp.Response.Collection.{
  Listing, setting, page_limit, invalid_limit, invalid_cursor, page_at, taken_at, page_of,
  response_budget, asked_limit, is_container, outlined_payload, listing_from, from_start,
  with_limit, collection_json, single_payload, single_json,
}
use prisma_sdwan_mcp.Response.Lookup.{payload_keys, get-set_other, get-update_given, other_keys}
use prisma_sdwan_mcp.Response.Outline.{json_bytes}
use prisma_sdwan_mcp.Response.Shape.{
  IsAnswer, IsReply, structured_error-IsError, IsApart, reply_for-IsReply, page_at-IsApart,
}

-- The entries of a single item's reply under any other key are the first three.
module _ (env : Env) (now tool summary : Text) (key : String) (extra : Fields) (repr : Value → Text)
    (k : String) (own : in_keys k payload_keys ≡ false) (apart : str_eq key k ≡ false)
    (new : has k extra ≡ false) where
  single_payload-other :
      (item : Value)
      → get k (single_payload repr env now tool summary key item extra)
        ≡ get k (
            field "contract_version"
              (str (codes "2.0.0"))
              (field "tool" (str tool) (field "summary" (str summary) end)))
  unfolding single_payload
  single_payload-other item =
      let (_, retrieved, _, _, _, _, _) = other_keys k own in
      get-update_given k extra _ new
      ∙ get-set_other "retrieved_at" k _ _ retrieved
      ∙ get-set_other key k _ _ apart

  outlined_payload-other :
      (item : Value) (fs : Fields) → get k (outlined_payload key item fs) ≡ get k fs
  unfolding outlined_payload
  outlined_payload-other item fs =
      let (_, _, _, _, truncated, warning, _) = other_keys k own in
      get-set_other "warning" k _ _ warning
      ∙ get-set_other "truncated" k _ _ truncated
      ∙ get-set_other key k _ _ apart

module _ (repr : Value → Text) (env : Env) (now : Text) where
  abbrev pub AllReply : Text → Result Failure Fields → Type 0
  AllReply tool r = (fs : Fields) → r ≡ ok fs → IsReply tool fs

  listing_from-IsReply :
      (l : Listing) (records : List Value) (limit start : ℕ)
      → IsApart l.key l.extra
      → AllReply l.tool (listing_from repr env now l records limit start)
  unfolding listing_from taken_at
  listing_from-IsReply l records limit start apart fs h =
      chain_kept (IsReply l.tool) (response_budget env l.budget) _
        (λ budget b e. subst (IsReply l.tool) (returned_eq e) (
          reply_for-IsReply repr (page_of now l records)
            (page_at (page_of now l records) l.full start limit budget l.extra records).1
            (page_at-IsApart (page_of now l records) l.full start limit budget l.extra records
              apart)
            budget _))
        fs h

  from_start-IsReply :
      (l : Listing) (records : List Value) (limit : ℕ) (start : Option ℕ)
      → IsApart l.key l.extra
      → AllReply l.tool (from_start repr env now l records limit start)
  unfolding from_start invalid_cursor
  from_start-IsReply l records limit none apart fs h =
      subst (IsReply l.tool) (returned_eq h)
        (inr (structured_error-IsError _ _ l.tool (int (pos 400)) end))
  from_start-IsReply l records limit (some start) apart fs h =
      listing_from-IsReply l records limit start apart fs h

  with_limit-IsReply :
      (l : Listing) (records : List Value) (most : ℕ) (limit : Option ℕ)
      → IsApart l.key l.extra
      → AllReply l.tool (with_limit repr env now l records most limit)
  unfolding with_limit invalid_limit
  with_limit-IsReply l records most none apart fs h =
      subst (IsReply l.tool) (returned_eq h)
        (inr (structured_error-IsError _ _ l.tool (int (pos 400)) end))
  with_limit-IsReply l records most (some limit) apart fs h =
      from_start-IsReply l records limit _ apart fs h

  -- What collection_json returns, if the records' key and the extra entries are not the name of the
  -- tool or the version, is an answer or an error, with the name of the tool.
  pub collection_json-IsReply :
      (l : Listing) (records : List Value)
      → IsApart l.key l.extra
      → AllReply l.tool (collection_json repr env now l records)
  unfolding collection_json
  collection_json-IsReply l records apart fs h =
      chain_kept (IsReply l.tool) (setting (get_max_page_size env)) _
        (λ most b e.
          chain_kept (IsReply l.tool) (asked_limit env l.limit) _
            (λ asked c f. with_limit-IsReply l records most (page_limit most asked) apart c f) b e)
        fs h

  single_payload-IsAnswer :
      (tool summary : Text) (key : String) (item : Value) (extra : Fields)
      → IsApart key extra
      → IsAnswer tool (single_payload repr env now tool summary key item extra)
  unfolding in_keys get
  single_payload-IsAnswer tool summary key item extra apart = record {
    its_tool =
        single_payload-other env now tool summary key extra repr "tool" refl apart.not_tool
          apart.no_tool item;
    version =
        single_payload-other env now tool summary key extra repr "contract_version" refl
          apart.not_version apart.no_version item;
  }

  outlined_payload-IsAnswer :
      (tool summary : Text) (key : String) (item : Value) (extra fs : Fields)
      → IsApart key extra
      → IsAnswer tool fs
      → IsAnswer tool (outlined_payload key item fs)
  unfolding in_keys
  outlined_payload-IsAnswer tool summary key item extra fs apart answer = record {
    its_tool =
        outlined_payload-other env now tool summary key extra repr "tool" refl apart.not_tool
          apart.no_tool item fs
        ∙ answer.its_tool;
    version =
        outlined_payload-other env now tool summary key extra repr "contract_version" refl
          apart.not_version apart.no_version item fs
        ∙ answer.version;
  }

  -- The same of single_json.
  pub single_json-IsReply :
      (tool summary : Text) (key : String) (item : Value) (extra : Fields)
      → IsApart key extra
      → AllReply tool (single_json repr env now tool summary key item extra)
  unfolding single_json
  single_json-IsReply tool summary key item extra apart fs h =
      let whole = single_payload repr env now tool summary key item extra in
      let outlined = outlined_payload key item whole in
      let answer = single_payload-IsAnswer tool summary key item extra apart in
      let again : Listing = record {
        tool = tool;
        summary = summary;
        key = key;
        cursor = none;
        limit = int (pos 1);
        extra = extra;
        budget = none;
        full = false;
      } in
      chain_kept (IsReply tool) (setting (get_max_response_bytes env)) _
        (λ budget b e.
          if_kept (λ (r : Result Failure Fields). r ≡ ok b → IsReply tool b)
            (leb (json_bytes (dict whole)) budget) (ok whole) _
            (λ f. subst (IsReply tool) (returned_eq f) (inl answer))
            (if_kept (λ (r : Result Failure Fields). r ≡ ok b → IsReply tool b)
              (is_container item && leb (json_bytes (dict outlined)) budget) (ok outlined)
              (collection_json repr env now again (item ∷ []))
              (λ f.
                subst (IsReply tool) (returned_eq f)
                  (inl (outlined_payload-IsAnswer tool summary key item extra whole apart answer)))
              (λ f. collection_json-IsReply again (item ∷ []) apart b f))
            e)
        fs h
