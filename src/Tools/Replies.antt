-- ===== src/Tools/Replies.antt =====
-- tools/common.py and tools/domains.py: what the tools reply.
use prisma_sdwan_mcp.Prelude.{length, ℕ, String, Bool, Option, none, some, List, [], ◌∷◌, ◌++◌, map}
use prisma_sdwan_mcp.Prelude.Text.{Text, codes}
use prisma_sdwan_mcp.Value.{Value, list, dict, Fields, end, items}
use prisma_sdwan_mcp.Resolver.Records.{records, decimal}
use prisma_sdwan_mcp.Common.{fail_from_upstream}
use prisma_sdwan_mcp.Response.{structured_error}
use prisma_sdwan_mcp.Response.Envelope.{count}
use prisma_sdwan_mcp.Response.Collection.{collection_json, single_json}
use prisma_sdwan_mcp.Tools.{Toolbox, Step, return, raising}

-- The page that a caller asks for.
pub record Paging : Type 0 where
  pub cursor : Option Text
  pub limit : Value

-- `error_json`
unfoldable pub refusal : String → String → Text → ℕ → Fields
unfolding codes
refusal code message tool status =
    structured_error (codes code) (codes message) tool (count status) end

abbrev pub invalid_argument : String → Text → Fields
invalid_argument message tool = refusal "invalid_argument" message tool 400

-- `'{text}'`
unfoldable pub quoted : Text → Text
quoted s = b'\'' ∷ (s ++ b'\'' ∷ [])

module _ (b : Toolbox) where
  unfoldable pub listing :
      Text → Text → String → Paging → Fields → Option ℕ → Bool → List Value → Step Fields
  listing tool summary key paging extra budget full items_ = raising (
      collection_json b.repr b.env b.now
        (record {
          tool = tool;
          summary = summary;
          key = key;
          cursor = paging.cursor;
          limit = paging.limit;
          extra = extra;
          budget = budget;
          full = full;
        })
        items_)

  unfoldable pub single : Text → Text → String → Value → Fields → Step Fields
  single tool summary key item extra =
      raising (single_json b.repr b.env b.now tool summary key item extra)

  -- `upstream = fail_from_upstream(tool, data)`, and the rest of the tool if that is None.
  unfoldable pub unless_failed : Text → Value → Step Fields → Step Fields
  unless_failed tool data_ next = elim (fail_from_upstream b.repr tool data_) [
    | some error ↦ return error
    | none ↦ next
  ]

  unfoldable pub finish_items : Text → Text → Paging → Fields → Bool → List Value → Step Fields
  unfolding codes decimal quoted
  finish_items tool operation paging extra full payload_ =
      listing tool
        (codes "Operation "
          ++ (quoted operation
              ++ (codes " returned " ++ (decimal (length payload_) ++ codes " item(s)"))))
        "items" paging extra none full payload_

  unfoldable pub finish_single : Text → Text → Fields → Value → Step Fields
  unfolding codes quoted
  finish_single tool operation extra data_ =
      single tool (codes "Operation " ++ quoted operation) "result" data_ extra

  -- The records of the data, or a list without records itself.
  unfoldable pub finish_records :
      Text → Text → Paging → Fields → Bool → Value → List Fields → Step Fields
  unfolding finish_items finish_single
  finish_records tool operation paging extra full data_ (r ∷ rs) =
      finish_items tool operation paging extra full (map dict (r ∷ rs))
  finish_records tool operation paging extra full (list vs) [] =
      finish_items tool operation paging extra full (items vs)
  finish_records tool operation paging extra full data_ [] =
      finish_single tool operation extra data_

  -- `_finish`
  unfoldable pub finish : Text → Text → Paging → Fields → Bool → Value → Step Fields
  unfolding finish_records
  finish tool operation paging extra full data_ =
      unless_failed tool data_
        (finish_records tool operation paging extra full data_ (records data_))
