-- ===== src/Tools/Domains/Scope.antt =====
-- tools/domains.py: what the tools with a site and an element read.
pub mod Operations
use prisma_sdwan_mcp.Prelude.{
  and_parts, any, ℕ, String, ◌≡◌, refl, Bool, true, false, Option, none, some, List, [], ◌∷◌, ◌++◌,
  arith, str_eq,
}
use prisma_sdwan_mcp.Prelude.Text.{Text}
use prisma_sdwan_mcp.Value.{Value, null, bool, int, real, str, list, dict, Fields, end, get, truthy}
use prisma_sdwan_mcp.Resolver.Records.{records}
use prisma_sdwan_mcp.Resolver.{at_site, SiteElement}
use prisma_sdwan_mcp.Tools.{Call, Log, Toolbox, Step}
use prisma_sdwan_mcp.Tools.Replies.{
  Paging, listing, single, finish_items, finish_single, finish_records, finish,
}
use prisma_sdwan_mcp.Tools.Calls.{
  Adds, none-Adds, more-Adds, bind-Adds, execute-Adds, try_tool-Adds, ids_if_given-Adds,
  unless_failed-Adds,
}
use prisma_sdwan_mcp.Tools.Domains.{
  Answer, refused, answered, site_paths, element_paths, id_paths, read_with, require, at_site_id,
  at_element_id, at_ids, finish_answer, scoped_tool,
}

-- The path parameter has a true value, if there is one.
unfoldable pub is_given : String → Fields → Bool
is_given k paths = elim (get k paths) [ none ↦ true | some v ↦ truthy v ]

-- The actions whose path has the id of a site, of an element, or of both.
abbrev of_site : List String
of_site =
    "vpn_wan.dhcpservers" ∷ "multicast.multicastsourcesiderps"
    ∷ "multicast.multicastsourcesiteconfigs" ∷ "flow_monitoring_ipfix.site_ipfixlocalprefixes"
    ∷ "service_connections_extensions.site_serviceconnections"
    ∷ "service_connections_extensions.site_extensions" ∷ "platform_specialized.prismaaccess_configs"
    ∷ "platform_specialized.prismasase_connections"
    ∷ "platform_specialized.prismasase_connections_status" ∷ "platform_specialized.demsiteconfigs"
    ∷ "platform_specialized.demstatus" ∷ []

abbrev of_element : List String
of_element =
    "platform_specialized.ntp" ∷ "platform_specialized.ntp_status" ∷ "platform_specialized.radii"
    ∷ []

abbrev of_both : List String
of_both =
    "dns_services.dnsservices" ∷ "platform_specialized.syslogservers"
    ∷ "platform_specialized.snmpagents" ∷ "platform_specialized.snmptraps"
    ∷ "platform_specialized.tacacs_plus_servers" ∷ "multicast.multicastglobalconfigs"
    ∷ "multicast.multicastdynamicrps" ∷ "multicast.multicastrps"
    ∷ "multicast.multicastprotocolparameters" ∷ "multicast.multicastwanstatus"
    ∷ "flow_monitoring_ipfix.ipfix" ∷ "service_connections_extensions.element_extensions"
    ∷ "platform_specialized.pa_advertisedprefixes" ∷ "platform_specialized.pa_reachableprefixes"
    ∷ []

abbrev pub needs_site : String → Bool
needs_site action = any (str_eq action) (of_site ++ of_both)

abbrev pub needs_element : String → Bool
needs_element action = any (str_eq action) (of_element ++ of_both)

abbrev pub HasId : String → Fields → Type 0
HasId k paths = (v : Value) × (get k paths ≡ some v) × (truthy v ≡ true)

-- A call has the id of a site and of an element if its action's path has it, and no such id without a
-- true value.
abbrev pub HasIds : Call → Type 0
HasIds c =
    (needs_site c.action ≡ true → HasId "site_id" c.paths)
    × (needs_element c.action ≡ true → HasId "element_id" c.paths)
    × (is_given "site_id" c.paths ≡ true)
    × (is_given "element_id" c.paths ≡ true)

pub not_needed : {A : Type 0} {test : Bool} → test ≡ false → test ≡ true → A
not_needed h k = cc

abbrev pub Reads : {A : Type 0} → ℕ → (Log → A × Log) → Type 0
Reads n m = Adds HasIds n m

module _ (b : Toolbox) where
  pub no_ids : {m : Step Answer} → ((log : Log) → (m log).1 ≡ log) → Reads 1 m
  no_ids same = more-Adds _ 0 1 (omega arith) (none-Adds same)

  pub read_with-Reads :
      (action : String) (paths : Fields) (body : Option Fields)
      → (needs_site action ≡ true → HasId "site_id" paths)
      → (needs_element action ≡ true → HasId "element_id" paths)
      → is_given "site_id" paths ≡ true
      → is_given "element_id" paths ≡ true
      → Reads 1 (read_with b action paths body)
  unfolding read_with
  read_with-Reads action paths body at_site at_element site element =
      bind-Adds 1 0 1 (omega arith)
        (execute-Adds b action paths body (at_site, at_element, site, element))
        (λ v. none-Adds (λ log. refl))

  pub read-Reads :
      (action : String) (body : Option Fields)
      → needs_site action ≡ false
      → needs_element action ≡ false
      → Reads 1 (read_with b action end body)
  unfolding is_given get
  read-Reads action body h k =
      read_with-Reads action end body (not_needed h) (not_needed k) refl refl

  pub require-Reads :
      (test : Bool) (message : String) (tool : Text) (next : Step Answer) (n : ℕ)
      → (test ≡ true → Reads n next)
      → Reads n (require b test message tool next)
  unfolding require
  require-Reads true message tool next n h = h refl
  require-Reads false message tool next n h =
      more-Adds _ 0 n (omega arith) (none-Adds (λ log. refl))

  pub at_site_id-Reads :
      (ids : SiteElement) (message : String) (tool : Text) (action : String)
      → needs_element action ≡ false
      → Reads 1 (at_site_id b ids message tool action)
  unfolding at_site_id is_given get
  at_site_id-Reads ids message tool action h = require-Reads _ message tool _ 1 (λ e.
      read_with-Reads action (site_paths ids) none (λ n. (ids.site_id, refl, e)) (not_needed h) e
        refl)

  pub at_element_id-Reads :
      (ids : SiteElement) (message : String) (tool : Text) (action : String)
      → needs_site action ≡ false
      → Reads 1 (at_element_id b ids message tool action)
  unfolding at_element_id is_given get
  at_element_id-Reads ids message tool action h = require-Reads _ message tool _ 1 (λ e.
      read_with-Reads action (element_paths ids) none (not_needed h)
        (λ n. (ids.element_id, refl, e)) refl e)

  pub at_ids-Reads :
      (ids : SiteElement) (message : String) (tool : Text) (action : String)
      → Reads 1 (at_ids b ids message tool action)
  unfolding at_ids is_given get
  at_ids-Reads ids message tool action = require-Reads _ message tool _ 1 (λ e.
      let (site, element) = and_parts _ _ e in
      read_with-Reads action (id_paths ids) none (λ n. (ids.site_id, refl, site))
        (λ n. (ids.element_id, refl, element)) site element)

  finish_records-same :
      (tool operation : Text) (paging : Paging) (extra : Fields) (full : Bool) (data_ : Value)
      (rs : List Fields) (log : Log)
      → (finish_records b tool operation paging extra full data_ rs log).1 ≡ log
  unfolding finish_records finish_items finish_single listing single
  finish_records-same tool operation paging extra full data_ (r ∷ rs) log = refl
  finish_records-same tool operation paging extra full (list vs) [] log = refl
  finish_records-same tool operation paging extra full (dict fs) [] log = refl
  finish_records-same tool operation paging extra full (str s) [] log = refl
  finish_records-same tool operation paging extra full (int z) [] log = refl
  finish_records-same tool operation paging extra full (real t) [] log = refl
  finish_records-same tool operation paging extra full (bool v) [] log = refl
  finish_records-same tool operation paging extra full null [] log = refl

  finish_answer-Reads :
      (tool operation : Text) (paging : Paging) (extra : Fields) (full : Bool) (answer : Answer)
      → Reads 0 (finish_answer b tool operation paging extra full answer)
  unfolding finish_answer finish
  finish_answer-Reads tool operation paging extra full (refused reply) = none-Adds (λ log. refl)
  finish_answer-Reads tool operation paging extra full (answered data_) =
      unless_failed-Adds b tool data_ _ 0
        (none-Adds (finish_records-same tool operation paging extra full data_ (records data_)))

  pub scoped_tool-Reads :
      (tool operation : Text) (site element : Option Text) (paging : Paging) (full : Bool)
      (operate : SiteElement → Step Answer) (n : ℕ)
      → ((ids : SiteElement) → Reads n (operate ids))
      → Reads n (scoped_tool b tool operation site element paging full operate)
  unfolding scoped_tool
  scoped_tool-Reads tool operation site element paging full operate n each =
      try_tool-Adds b tool _ n (
        bind-Adds 0 n n (omega arith) (ids_if_given-Adds b site element) (λ ids.
          bind-Adds n 0 n (omega arith) (each ids)
            (λ answer. finish_answer-Reads tool operation paging (id_paths ids) full answer)))
