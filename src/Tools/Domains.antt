-- ===== src/Tools/Domains.antt =====
-- tools/domains.py: the tools that read one domain each. A tool maps its operation to one read of the
-- controller and refuses the operation if an id that it needs is missing.
pub mod Network
pub mod Access
pub mod Assets
pub mod Scope
use prisma_sdwan_mcp.Prelude.{if◌then◌else◌, String, Bool, ◌&&◌, Option, none, some}
use prisma_sdwan_mcp.Prelude.Text.{Text}
use prisma_sdwan_mcp.Value.{Value, Fields, end, field, truthy}
use prisma_sdwan_mcp.Resolver.{given, SiteElement}
use prisma_sdwan_mcp.Tools.{
  Log, Toolbox, Step, return, ◌>>=◌, execute, ids_if_given, id_of_named, try_tool,
}
use prisma_sdwan_mcp.Tools.Replies.{Paging, invalid_argument, finish}

-- What an operation comes to: an early reply, or the data that the controller returned.
pub data Answer : Type 0 where
  refused : Fields → Answer
  answered : Value → Answer

abbrev pub site_paths : SiteElement → Fields
site_paths ids = field "site_id" ids.site_id end

abbrev pub element_paths : SiteElement → Fields
element_paths ids = field "element_id" ids.element_id end

abbrev pub id_paths : SiteElement → Fields
id_paths ids = field "site_id" ids.site_id (field "element_id" ids.element_id end)

module _ (b : Toolbox) where
  unfoldable pub read_with : String → Fields → Option Fields → Step Answer
  read_with action paths body = execute b action paths body >>= λ v. return (answered v)

  abbrev pub read : String → Step Answer
  read action = read_with action end none

  abbrev pub query : String → Fields → Step Answer
  query action body = read_with action end (some body)

  -- The read, if the test passes.
  unfoldable pub require : Bool → String → Text → Step Answer → Step Answer
  require test message tool next =
      if test then next else return (refused (invalid_argument message tool))

  unfoldable pub at_site_id : SiteElement → String → Text → String → Step Answer
  at_site_id ids message tool action =
      require (truthy ids.site_id) message tool (read_with action (site_paths ids) none)

  unfoldable pub at_element_id : SiteElement → String → Text → String → Step Answer
  at_element_id ids message tool action =
      require (truthy ids.element_id) message tool (read_with action (element_paths ids) none)

  unfoldable pub at_ids : SiteElement → String → Text → String → Step Answer
  at_ids ids message tool action =
      require (truthy ids.site_id && truthy ids.element_id) message tool
        (read_with action (id_paths ids) none)

  unfoldable pub finish_answer : Text → Text → Paging → Fields → Bool → Answer → Step Fields
  finish_answer tool operation paging extra full (refused reply) = return reply
  finish_answer tool operation paging extra full (answered data_) =
      finish b tool operation paging extra full data_

  -- A tool that is given a site and an element: their ids, the operation, and the reply with the ids.
  unfoldable pub scoped_tool :
      Text
      → Text
      → Option Text
      → Option Text
      → Paging
      → Bool
      → (SiteElement → Step Answer)
      → Log
      → Fields × Log
  scoped_tool tool operation site element paging full operate = try_tool b tool (do
    ids ← ids_if_given b site element
    answer ← operate ids
    finish_answer tool operation paging (id_paths ids) full answer)

  -- A tool without ids of its own.
  unfoldable pub plain_tool : Text → Text → Paging → Bool → Step Answer → Log → Fields × Log
  plain_tool tool operation paging full operate =
      try_tool b tool (do answer ← operate; finish_answer tool operation paging end full answer)

  -- The read of something that is named by an argument which may be missing.
  unfoldable pub named : String → String → String → Option Text → Text → String → Step Answer
  unfolding given
  named kind path message value tool action = elim (given value) [
    | none ↦ return (refused (invalid_argument message tool))
    | some name ↦ do id ← id_of_named b kind name; read_with action (field path id end) none
  ]
