-- ===== src/Response/Collection.antt =====
-- response.py: `collection_json` and `single_json`, as the object that the JSON text holds. `repr` is
-- Python's `str` of a list or an object, `env` the environment and `now` the time stamp.
use prisma_sdwan_mcp.Prelude.{
  ltb, leb, if◌then◌else◌, length, take, drop, ℕ, suc, String, Bool, true, false, ◌&&◌, Option,
  none, some, List, [], ◌∷◌, ◌++◌,
}
use prisma_sdwan_mcp.Prelude.Text.{Text, codes}
use prisma_sdwan_mcp.Prelude.Int.{pos}
use prisma_sdwan_mcp.Prelude.Result.{Result, err, ok, ◌>>=◌}
use prisma_sdwan_mcp.Errors.{Failure, unexpected}
use prisma_sdwan_mcp.Config.{
  Env, ConfigError, get_max_response_bytes, get_max_page_size, get_default_page_size,
}
use prisma_sdwan_mcp.Value.{Value, null, bool, int, str, list, dict, Fields, end, field, set}
use prisma_sdwan_mcp.Resolver.Records.{records, decimal}
use prisma_sdwan_mcp.Response.{structured_error}
use prisma_sdwan_mcp.Response.Outline.{json_bytes, outline}
use prisma_sdwan_mcp.Response.Cursor.{decode_cursor}
use prisma_sdwan_mcp.Response.Envelope.{
  Page, count, update_given, payload, identity, Taken, fitting, oversized, take_fitting,
  compact_if_big,
}

-- The arguments of a call; `limit` is None or a value, and `full` says that `detail` is "full".
pub record Listing : Type 0 where
  pub tool : Text
  pub summary : Text
  pub key : String
  pub cursor : Option Text
  pub limit : Value
  pub extra : Fields
  pub budget : Option ℕ
  pub full : Bool

-- A setting, whose error is a ValueError.
unfoldable pub setting : {A : Type 0} → Result ConfigError A → Result Failure A
unfolding codes
setting (err e) = err (unexpected (codes "ValueError"))
setting (ok a) = ok a

-- `isinstance(limit, int)`, no bool, and from 1 to the largest page.
unfoldable pub page_limit : ℕ → Value → Option ℕ
page_limit most (int (pos n)) = if leb 1 n && leb n most then some n else none
page_limit most v = none

unfoldable pub invalid_limit : ℕ → Text → Fields
invalid_limit most tool =
    structured_error (codes "invalid_limit") (codes "limit must be between 1 and " ++ decimal most)
      tool (int (pos 400)) end

unfoldable pub invalid_cursor : Text → Fields
invalid_cursor tool =
    structured_error (codes "invalid_cursor")
      (codes
          "cursor is malformed, out of range, or was issued by a different tool - reuse only a next_cursor returned by "
        ++ tool)
      tool (int (pos 400)) end

unfoldable pub budget_exceeded : Text → Fields
budget_exceeded tool =
    structured_error (codes "response_budget_exceeded")
      (codes "response is larger than the configured byte budget") tool (int (pos 413)) end

unfoldable pub dropped_warning : Text
unfolding codes
dropped_warning =
    codes
      "item exceeded the response byte budget; its contents were dropped and only identifying fields are shown. Paging cannot recover it - request a narrower read (a semantic tool scoped to one site/element, or a shorter time window), or raise MCP_MAX_RESPONSE_BYTES"

-- The reply for a first record that does not fit: its identity.
unfoldable pub stub : (Value → Text) → Page → Fields → Value → ℕ → Fields
stub repr p extra r next_offset = set "warning" (str dropped_warning) (
    set "returned_count" (count 0)
      (set "truncated" (bool true) (payload p (dict (identity repr r) ∷ []) next_offset extra)))

-- The reply for the records that fit, before it is measured.
unfoldable pub final_payload : Page → Fields → List Value → ℕ → Fields
final_payload p extra selected next_offset =
    if ltb next_offset p.total
    then set "summary" (str (p.summary ++ codes "; more results available via next_cursor"))
        (payload p selected next_offset extra)
    else payload p selected next_offset extra

unfoldable pub reply_for : (Value → Text) → Page → Fields → ℕ → Taken → Fields
reply_for repr p extra budget (oversized r next_offset) = stub repr p extra r next_offset
reply_for repr p extra budget (fitting selected next_offset) =
    if leb (json_bytes (dict (final_payload p extra selected next_offset))) budget
    then final_payload p extra selected next_offset
    else budget_exceeded p.tool

-- The page from an offset on, and the extra entries, after compaction.
unfoldable pub page_at : Page → Bool → ℕ → ℕ → ℕ → Fields → List Value → List Value × Fields
page_at p full start limit budget extra records =
    if full
    then (take limit (drop start records), extra)
    else compact_if_big p start budget (take limit (drop start records)) extra

-- What the loop takes of the page, and the extra entries.
unfoldable pub taken_at : Page → Bool → ℕ → ℕ → ℕ → Fields → List Value → Taken × Fields
taken_at p full start limit budget extra records =
    let paged = page_at p full start limit budget extra records in
    (take_fitting p paged.1 budget paged.0 [] start, paged.1)

abbrev pub page_of : Text → Listing → List Value → Page
page_of now l records = record {
  tool = l.tool;
  summary = l.summary;
  key = l.key;
  total = length records;
  now = now;
}

-- `budget or get_max_response_bytes()`
unfoldable pub response_budget : Env → Option ℕ → Result Failure ℕ
response_budget env (some (suc n)) = ok (suc n)
response_budget env _ = setting (get_max_response_bytes env)

-- `get_default_page_size() if limit is None else limit`
unfoldable pub asked_limit : Env → Value → Result Failure Value
asked_limit env null = do n ← setting (get_default_page_size env); ok (int (pos n))
asked_limit env v = ok v

unfoldable pub outline_warning : Text
unfolding codes
outline_warning =
    codes
      "this result is a single object too large to return in full, and a single object cannot be paged. Every value small enough to keep is shown verbatim; each larger one is replaced by its shape and size. Fetch the part you need with a tool that pages it (each 'count' above says how much there is), narrow the request (one site/element, a shorter window), or raise MCP_MAX_RESPONSE_BYTES"

unfoldable pub is_container : Value → Bool
is_container (list vs) = true
is_container (dict fs) = true
is_container v = false

unfoldable pub outlined_payload : String → Value → Fields → Fields
unfolding outline outline_warning set
outlined_payload key item fs =
    set "warning" (str outline_warning) (set "truncated" (bool true) (set key (outline item) fs))

module _ (repr : Value → Text) (env : Env) (now : Text) where
  unfoldable pub listing_from : Listing → List Value → ℕ → ℕ → Result Failure Fields
  listing_from l records limit start = do
    budget ← response_budget env l.budget
    ok (
        reply_for repr (page_of now l records)
          ((taken_at (page_of now l records) l.full start limit budget l.extra records).1) budget
          ((taken_at (page_of now l records) l.full start limit budget l.extra records).0))

  -- The call with the offset that the cursor stands for.
  unfoldable pub from_start : Listing → List Value → ℕ → Option ℕ → Result Failure Fields
  from_start l records limit none = ok (invalid_cursor l.tool)
  from_start l records limit (some start) = listing_from l records limit start

  -- The call with the limit, if it is one that is allowed.
  unfoldable pub with_limit : Listing → List Value → ℕ → Option ℕ → Result Failure Fields
  with_limit l records most none = ok (invalid_limit most l.tool)
  with_limit l records most (some limit) =
      from_start l records limit (decode_cursor l.cursor (length records) l.tool)

  -- `collection_json`
  unfoldable pub collection_json : Listing → List Value → Result Failure Fields
  collection_json l records = do
    most ← setting (get_max_page_size env)
    asked ← asked_limit env l.limit
    with_limit l records most (page_limit most asked)

  unfoldable pub single_payload : Text → Text → String → Value → Fields → Fields
  unfolding set update_given codes
  single_payload tool summary key item extra = update_given extra (
      set "retrieved_at" (str now) (
        set key item (
          field "contract_version" (str (codes "2.0.0"))
            (field "tool" (str tool) (field "summary" (str summary) end)))))

  -- `single_json`
  unfoldable pub single_json : Text → Text → String → Value → Fields → Result Failure Fields
  unfolding single_payload outlined_payload is_container json_bytes collection_json
  single_json tool summary key item extra = do
    budget ← setting (get_max_response_bytes env)
    let whole = single_payload tool summary key item extra
    let outlined = outlined_payload key item whole
    if leb (json_bytes (dict whole)) budget
        then ok whole
        else if is_container item && leb (json_bytes (dict outlined)) budget
        then ok outlined
        else collection_json
            (record {
              tool = tool;
              summary = summary;
              key = key;
              cursor = none;
              limit = int (pos 1);
              extra = extra;
              budget = none;
              full = false;
            })
            (item ∷ [])
