-- ===== src/Tools/Shape/Domains.antt =====
-- tools/domains.py: the replies of the tools that read one domain each.
pub mod Network
pub mod Access
pub mod Assets
pub mod Every
use prisma_sdwan_mcp.Prelude.{
  Option-cases, String, ◌≡◌, refl, inl, inr, Bool, true, false, ◌&&◌, Option, none, List, [], ◌∷◌,
  str_eq,
}
use prisma_sdwan_mcp.Prelude.Text.{Text}
use prisma_sdwan_mcp.Value.{
  Value, null, bool, int, real, str, list, dict, Fields, end, field, get, has, truthy,
}
use prisma_sdwan_mcp.Resolver.Records.{records}
use prisma_sdwan_mcp.Resolver.{given, SiteElement}
use prisma_sdwan_mcp.Response.Shape.{IsError, IsReply, IsApart}
use prisma_sdwan_mcp.Tools.{Log, Toolbox, Step, return, execute, ids_if_given, id_of_named}
use prisma_sdwan_mcp.Tools.Replies.{
  Paging, invalid_argument, finish_items, finish_single, finish_records, finish,
}
use prisma_sdwan_mcp.Tools.Domains.{
  Answer, refused, answered, site_paths, element_paths, id_paths, read_with, require, at_site_id,
  at_element_id, at_ids, finish_answer, scoped_tool, plain_tool, named,
}
use prisma_sdwan_mcp.Tools.Shape.{
  refusal-IsError, Yields, return-Yields, bind-Yields, chain-Yields, try_tool-IsReply,
  listing-Yields, single-Yields, unless_failed-Yields,
}

-- A refusal is an error of the tool.
abbrev pub IsRefusal : Text → Answer → Type 0
IsRefusal tool (refused reply) = IsError tool reply
IsRefusal tool (answered v) = Unit

-- An operation refuses as its tool does.
abbrev pub Refuses : Text → Step Answer → Type 0
Refuses tool m = Yields (IsRefusal tool) m

site_element-IsApart :
    (key : String) (ids : SiteElement)
    → str_eq key "tool" ≡ false
    → str_eq key "contract_version" ≡ false
    → IsApart key (id_paths ids)
unfolding has get
site_element-IsApart key ids h k = record {
  not_tool = h;
  not_version = k;
  no_tool = refl;
  no_version = refl;
}

end-IsApart :
    (key : String)
    → str_eq key "tool" ≡ false
    → str_eq key "contract_version" ≡ false
    → IsApart key end
unfolding has get
end-IsApart key h k = record { not_tool = h; not_version = k; no_tool = refl; no_version = refl }

module _ (b : Toolbox) (tool : Text) where
  pub refused-Refuses : (fs : Fields) → IsError tool fs → Refuses tool (return (refused fs))
  refused-Refuses fs e = return-Yields (IsRefusal tool) (refused fs) e

  pub invalid-Refuses :
      (message : String) → Refuses tool (return (refused (invalid_argument message tool)))
  invalid-Refuses message = refused-Refuses _ (refusal-IsError "invalid_argument" message tool 400)

  pub read_with-Refuses :
      (action : String) (paths : Fields) (body : Option Fields)
      → Refuses tool (read_with b action paths body)
  unfolding read_with
  read_with-Refuses action paths body =
      bind-Yields (IsRefusal tool) (execute b action paths body) (λ v. return (answered v))
        (λ v. return-Yields (IsRefusal tool) (answered v) tt)

  pub require-Refuses :
      (test : Bool) (message : String) (next : Step Answer)
      → Refuses tool next
      → Refuses tool (require b test message tool next)
  unfolding require
  require-Refuses true message next refuses = refuses
  require-Refuses false message next refuses = invalid-Refuses message

  pub at_site_id-Refuses :
      (ids : SiteElement) (message action : String)
      → Refuses tool (at_site_id b ids message tool action)
  unfolding at_site_id
  at_site_id-Refuses ids message action =
      require-Refuses (truthy ids.site_id) message _
        (read_with-Refuses action (site_paths ids) none)

  pub at_element_id-Refuses :
      (ids : SiteElement) (message action : String)
      → Refuses tool (at_element_id b ids message tool action)
  unfolding at_element_id
  at_element_id-Refuses ids message action =
      require-Refuses (truthy ids.element_id) message _
        (read_with-Refuses action (element_paths ids) none)

  pub at_ids-Refuses :
      (ids : SiteElement) (message action : String)
      → Refuses tool (at_ids b ids message tool action)
  unfolding at_ids
  at_ids-Refuses ids message action =
      require-Refuses (truthy ids.site_id && truthy ids.element_id) message _
        (read_with-Refuses action (id_paths ids) none)

  pub named-Refuses :
      (kind path message : String) (value : Option Text) (action : String)
      → Refuses tool (named b kind path message value tool action)
  unfolding named
  named-Refuses kind path message value action = elim (Option-cases (given value)) [
    | inl e ↦ rw (named, e) (invalid-Refuses message)
    | inr (name, e) ↦
        rw (named, e)
          (bind-Yields (IsRefusal tool) (id_of_named b kind name) _
            (λ id. read_with-Refuses action (field path id end) none))
  ]

  finish_records-Yields :
      (operation : Text) (paging : Paging) (extra : Fields) (full : Bool) (data_ : Value)
      (rs : List Fields)
      → IsApart "items" extra
      → IsApart "result" extra
      → Yields (IsReply tool) (finish_records b tool operation paging extra full data_ rs)
  unfolding finish_records finish_items finish_single
  finish_records-Yields operation paging extra full data_ (r ∷ rs) h k =
      listing-Yields b tool _ "items" paging extra none full _ h
  finish_records-Yields operation paging extra full (list vs) [] h k =
      listing-Yields b tool _ "items" paging extra none full _ h
  finish_records-Yields operation paging extra full null [] h k =
      single-Yields b tool _ "result" null extra k
  finish_records-Yields operation paging extra full (bool x) [] h k =
      single-Yields b tool _ "result" (bool x) extra k
  finish_records-Yields operation paging extra full (int z) [] h k =
      single-Yields b tool _ "result" (int z) extra k
  finish_records-Yields operation paging extra full (real t) [] h k =
      single-Yields b tool _ "result" (real t) extra k
  finish_records-Yields operation paging extra full (str t) [] h k =
      single-Yields b tool _ "result" (str t) extra k
  finish_records-Yields operation paging extra full (dict fs) [] h k =
      single-Yields b tool _ "result" (dict fs) extra k

  finish_answer-Yields :
      (operation : Text) (paging : Paging) (extra : Fields) (full : Bool) (answer : Answer)
      → IsApart "items" extra
      → IsApart "result" extra
      → IsRefusal tool answer
      → Yields (IsReply tool) (finish_answer b tool operation paging extra full answer)
  unfolding finish_answer finish
  finish_answer-Yields operation paging extra full (refused reply) h k e =
      return-Yields (IsReply tool) reply (inr e)
  finish_answer-Yields operation paging extra full (answered data_) h k e =
      unless_failed-Yields b tool data_ _
        (finish_records-Yields operation paging extra full data_ (records data_) h k)

  -- A tool with a site and an element replies, whatever is called, with an answer or an error.
  pub scoped_tool-IsReply :
      (operation : Text) (site element : Option Text) (paging : Paging) (full : Bool)
      (operate : SiteElement → Step Answer)
      → ((ids : SiteElement) → Refuses tool (operate ids))
      → (log : Log)
      → IsReply tool (scoped_tool b tool operation site element paging full operate log).0
  unfolding scoped_tool
  scoped_tool-IsReply operation site element paging full operate refuses log =
      try_tool-IsReply b tool _
        (bind-Yields (IsReply tool) (ids_if_given b site element) _ (λ ids.
          chain-Yields (IsRefusal tool) (IsReply tool) (operate ids) _ (refuses ids) (λ answer e.
            finish_answer-Yields operation paging (id_paths ids) full answer
              (site_element-IsApart "items" ids refl refl)
              (site_element-IsApart "result" ids refl refl) e)))
        log

  pub plain_tool-IsReply :
      (operation : Text) (paging : Paging) (full : Bool) (operate : Step Answer)
      → Refuses tool operate
      → (log : Log) → IsReply tool (plain_tool b tool operation paging full operate log).0
  unfolding plain_tool
  plain_tool-IsReply operation paging full operate refuses log =
      try_tool-IsReply b tool _
        (chain-Yields (IsRefusal tool) (IsReply tool) operate _ refuses (λ answer e.
          finish_answer-Yields operation paging end full answer (end-IsApart "items" refl refl)
            (end-IsApart "result" refl refl) e))
        log
