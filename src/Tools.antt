-- ===== src/Tools.antt =====
-- tools/common.py: how a tool of tools/ runs: its calls of the executor, in their order, and the reply
-- that every exception becomes.
pub mod Replies
pub mod Calls
pub mod Domains
pub mod Core
pub mod Monitoring
pub mod Routing
pub mod Policies
pub mod Discovery
pub mod SiteConfig
pub mod Live
pub mod Shape
pub mod Tests
use prisma_sdwan_mcp.Prelude.Int.{pos}
use prisma_sdwan_mcp.Prelude.{
  if◌then◌else◌, ℕ, String, Option, none, some, List, [], ◌∷◌, ◌++◌, map,
}
use prisma_sdwan_mcp.Prelude.Text.{Text, codes}
use prisma_sdwan_mcp.Prelude.Result.{Result, err, ok}
use prisma_sdwan_mcp.Errors.{Failure, unexpected}
use prisma_sdwan_mcp.Config.{Env, get_max_fanout}
use prisma_sdwan_mcp.Value.{
  Value, null, int, str, list, dict, Fields, end, field, items, get, get_or_null, keys, truthy,
}
use prisma_sdwan_mcp.Resolver.Records.{to_text}
use prisma_sdwan_mcp.Resolver.{Services, require_one, given, SiteElement, site_element}
use prisma_sdwan_mcp.Common.{handle_error, Counts}
use prisma_sdwan_mcp.Response.Collection.{setting}
use prisma_sdwan_mcp.Value.Names.{name_of}

-- A call of `execute`; a body that is None is `none`.
pub record Call : Type 0 where
  pub action : String
  pub paths : Fields
  pub body : Option Fields

abbrev pub Log : Type 0
Log = List Call

-- What the tools use: the executor's answer to a call, which may depend on the calls before it, the
-- resolver's services at that time, Python's `str` of a list or an object and of an exception, the
-- environment and the time stamp of the reply.
pub record Toolbox : Type 0 where
  pub answer : Log → Call → Result Failure Value
  pub services : Log → Services
  pub repr : Value → Text
  pub text : Failure → Text
  pub env : Env
  pub now : Text

-- A step of a tool: the calls that it adds, and its result or the exception that it raises. The calls
-- that the resolver makes for a tool are not among them.
abbrev pub Step : Type 0 → Type 0
Step A = Log → Result Failure A × Log

abbrev pub return : {A : Type 0} → A → Step A
return a = λ log. (ok a, log)

abbrev pub raising : {A : Type 0} → Result Failure A → Step A
raising r = λ log. (r, log)

unfoldable pub continue :
    {A B : Type 0} → Result Failure A × Log → (A → Step B) → Result Failure B × Log
continue (err e, log) next = (err e, log)
continue (ok a, log) next = next a log

infixl 5 ◌>>=◌
unfoldable pub ◌>>=◌ : {A B : Type 0} → Step A → (A → Step B) → Step B
(m >>= next) log = continue (m log) next

module _ (b : Toolbox) where
  -- `execute`
  unfoldable pub execute : String → Fields → Option Fields → Step Value
  execute action paths body log =
      let call : Call = record { action = action; paths = paths; body = body } in
      (b.answer log call, log ++ call ∷ [])

  -- `resolve`
  unfoldable pub resolve : String → Text → Step Fields
  resolve kind value log = (require_one (b.services log) kind value end, log)

  -- `site_element`
  unfoldable pub ids_of : Option Text → Option Text → Step SiteElement
  ids_of site element log = (site_element (b.services log) site element, log)

  -- `site_element(site, element) if (site or element) else (None, None, None)`
  unfoldable pub ids_if_given : Option Text → Option Text → Step SiteElement
  ids_if_given site element = elim (given site) [
    | some s ↦ ids_of site element
    | none ↦ elim (given element) [
      | some e ↦ ids_of site element
      | none ↦ return (record { site_id = null; element_id = null; element_record = none })
    ]
  ]

  -- `resolve(kind, name)["id"]`; a record without an id raises KeyError.
  unfoldable pub id_of_named : String → Text → Step Value
  unfolding get codes
  id_of_named kind name = do
    r ← resolve kind name
    elim (get "id" r) [ some v ↦ return v | none ↦ raising (err (unexpected (codes "KeyError"))) ]

  -- The `try` of a tool.
  unfoldable pub try_tool : Text → Step Fields → Log → Fields × Log
  try_tool tool m log = elim ((m log).0) [
    | ok reply ↦ (reply, (m log).1)
    | err e ↦ (handle_error b.text tool e end, (m log).1)
  ]

  -- `get_max_fanout()`
  unfoldable pub max_fanout : Step ℕ
  unfolding setting
  max_fanout = raising (setting (get_max_fanout b.env))

-- A loop that collects what each round gives.
unfoldable pub gather : {A B : Type 0} → (A → Step (List B)) → List A → Step (List B)
gather f [] = return []
gather f (x ∷ xs) = f x >>= λ ys. gather f xs >>= λ zs. return (ys ++ zs)

-- `item.get(k1) or item.get(k2) or …`
unfoldable pub first_truthy : List String → Fields → Value
first_truthy [] fs = null
first_truthy (k ∷ []) fs = get_or_null k fs
first_truthy (k ∷ k' ∷ ks) fs =
    let later = first_truthy (k' ∷ ks) fs in
    if truthy (get_or_null k fs) then get_or_null k fs else later

-- An argument as a value; None is `null`.
abbrev pub as_value : Option Text → Value
as_value none = null
as_value (some s) = str s

-- `dict(counts)`
unfoldable pub counts_value : Counts → Fields
counts_value [] = end
counts_value ((t, n) ∷ cs) = field (name_of t) (int (pos n)) (counts_value cs)

-- `str(item.get(key, default))`
unfoldable pub text_at : (Value → Text) → String → Text → Fields → Text
text_at repr key default item = elim (get key item) [ none ↦ default | some v ↦ to_text repr v ]

-- The elements over which a `for` loop runs; what cannot be iterated raises TypeError.
unfoldable pub iterate : Value → Result Failure (List Value)
iterate (list vs) = ok (items vs)
iterate (dict fs) = ok (map (λ k. str (codes k)) (keys fs))
iterate (str s) = ok (map (λ c. str (c ∷ [])) s)
iterate v = err (unexpected (codes "TypeError"))

-- `for x in v or []`
unfoldable pub iterate_or_empty : Value → Result Failure (List Value)
iterate_or_empty v = if truthy v then iterate v else ok []
