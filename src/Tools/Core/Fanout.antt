-- ===== src/Tools/Core/Fanout.antt =====
-- tools/core.py: how many calls `get_interfaces` and `get_topology` make.
pub mod HealthView
use prisma_sdwan_mcp.Tools.Core.Topology.Links.{Leg}
use prisma_sdwan_mcp.Prelude.Int.{below, to_nat}
use prisma_sdwan_mcp.Prelude.{
  if◌then◌else◌, Bool-cases, length, take, drop, length-take-le, ℕ, ◌+◌, ◌≤◌, ◌≡◌, refl, ◌⊎◌, inl,
  inr, Bool, true, false, not, ◌&&◌, Option, none, some, List, [], ◌∷◌, arith,
}
use prisma_sdwan_mcp.Prelude.Text.{Text}
use prisma_sdwan_mcp.Prelude.Result.{Result, err, ok}
use prisma_sdwan_mcp.Config.{ConfigError, get_max_fanout}
use prisma_sdwan_mcp.Value.{Value, Fields, truthy}
use prisma_sdwan_mcp.Resolver.Records.{records}
use prisma_sdwan_mcp.Resolver.{given, SiteElement}
use prisma_sdwan_mcp.Response.Collection.{setting}
use prisma_sdwan_mcp.Tools.{
  Call, Log, Toolbox, Step, ◌>>=◌, ids_of, max_fanout, gather, first_truthy,
}
use prisma_sdwan_mcp.Tools.Replies.{Paging, listing}
use prisma_sdwan_mcp.Tools.Calls.{
  Adds, fanout_limit, none-Adds, more-Adds, bind-Adds, raising-Adds, execute-Adds, gather-Adds,
  try_tool-Adds, id_of_named-Adds, unless_failed-Adds,
}
use prisma_sdwan_mcp.Tools.Core.Interfaces.{
  Mode, config, status, both, chosen, combine, reply_combined, reply_chosen, get_interfaces,
}
use prisma_sdwan_mcp.Tools.Core.Topology.{
  leg_status, Query, window, basenet_reply, basenet, summary_reply, full_reply, site_id_of,
  view_reply, topology_reply, is_unfiltered, get_topology,
}

-- Any call.
abbrev pub AnyCall : Call → Type 0
AnyCall c = Unit

abbrev pub Calls : {A : Type 0} → ℕ → (Log → A × Log) → Type 0
Calls n m = Adds AnyCall n m

pub silent : {A : Type 0} {m : Log → A × Log} (n : ℕ) → ((log : Log) → (m log).1 ≡ log) → Calls n m
silent n same = more-Adds _ 0 n (omega arith) (none-Adds same)

pub either-Calls :
    {A : Type 0} (test : Bool) {m k : Step A} (n : ℕ)
    → Calls n m
    → Calls n k
    → Calls n (if test then m else k)
either-Calls true n first second = first
either-Calls false n first second = second

module _ (b : Toolbox) where
  -- The fan-out over at most as many elements as the limit.
  pub max_fanout-Calls :
      {B : Type 0} {f : ℕ → Step B} (n : ℕ)
      → ((most : ℕ) → most ≤ fanout_limit b.env → Calls n (f most))
      → Calls n (max_fanout b >>= f)
  unfolding max_fanout fanout_limit setting
  max_fanout-Calls {f} n next =
      raising-Adds _ f n (λ most e. next most (at_most (get_max_fanout b.env) most e))
    where
      at_most :
          (r : Result ConfigError ℕ) (most : ℕ)
          → setting r ≡ ok most
          → most ≤ (elim r as (λ x. ℕ) [ err e ↦ 0 | ok n ↦ n ])
      at_most (ok n) most e = let same : n ≡ most = cc in omega arith
      at_most (err m) most e = cc

  pub gather-Calls :
      {A B : Type 0} (f : A → Step (List B)) (most n : ℕ) (xs : List A)
      → most ≤ n
      → ((x : A) → Calls 1 (f x))
      → Calls n (gather f (take most xs))
  gather-Calls f most n xs le each =
      more-Adds _ (length (take most xs)) n (omega (arith, length-take-le most xs))
        (gather-Adds f (take most xs) each)

  combine-Calls :
      (ids : SiteElement) (mode : Mode) (interface : Fields)
      → Calls 1 (combine b ids mode interface)
  unfolding combine
  combine-Calls ids mode interface =
      elim (Bool-cases (truthy (first_truthy ("id" ∷ "interface_id" ∷ []) interface))) [
        | inl e ↦
            rw (combine, e)
              (bind-Adds 1 0 1 (omega arith) (execute-Adds b _ _ none tt)
                (λ s. none-Adds (λ log. refl)))
        | inr e ↦ rw (combine, e) (silent 1 (λ log. refl))
      ]

  fan_out :
      (ids : SiteElement) (mode : Mode) (element : Text) (paging : Paging) (configs : List Fields)
      → Calls (fanout_limit b.env) (do
        most ← max_fanout b
        combined ← gather (combine b ids mode) (take most configs)
        reply_combined b ids mode element paging configs most combined)
  unfolding reply_combined listing
  fan_out ids mode element paging configs = max_fanout-Calls (fanout_limit b.env) (λ most le.
      bind-Adds (fanout_limit b.env) 0 (fanout_limit b.env) (omega arith)
        (gather-Calls (combine b ids mode) most _ configs le (combine-Calls ids mode))
        (λ combined. none-Adds (λ log. refl)))

  reply_chosen-Calls :
      (ids : SiteElement) (mode : Mode) (element : Text) (paging : Paging)
      (chosen_ : Fields ⊎ List Fields)
      → Calls (fanout_limit b.env) (reply_chosen b ids mode element paging chosen_)
  unfolding reply_chosen reply_combined listing
  reply_chosen-Calls ids mode element paging (inl reply) = silent _ (λ log. refl)
  reply_chosen-Calls ids config element paging (inr configs) = silent _ (λ log. refl)
  reply_chosen-Calls ids status element paging (inr configs) =
      fan_out ids status element paging configs
  reply_chosen-Calls ids both element paging (inr configs) = fan_out ids both element paging configs

  leg_status-Calls : (leg : Leg) → Calls 1 (leg_status b leg)
  unfolding leg_status
  leg_status-Calls leg =
      bind-Adds 1 0 1 (omega arith) (execute-Adds b _ _ none tt) (λ s. none-Adds (λ log. refl))

  basenet-Calls :
      (site : Option Text) (site_id : Value) (leg_offset : ℕ) (paging : Paging) (links : List Value)
      → Calls (fanout_limit b.env) (basenet b site site_id leg_offset paging links)
  unfolding basenet basenet_reply listing window
  basenet-Calls site site_id leg_offset paging links = raising-Adds _ _ _ (λ legs e.
      max_fanout-Calls (fanout_limit b.env) (λ cap le.
        bind-Adds (fanout_limit b.env) 0 (fanout_limit b.env) (omega arith)
          (gather-Calls (leg_status b) cap _ (drop leg_offset legs) le leg_status-Calls)
          (λ entries. none-Adds (λ log. refl))))

  view_reply-Calls :
      (q : Query) (paging : Paging) (site_id : Value) (nodes links : List Value)
      → Calls (fanout_limit b.env) (view_reply b q paging site_id nodes links)
  unfolding view_reply full_reply summary_reply listing
  view_reply-Calls q paging site_id nodes links = elim (Bool-cases q.basenet_view) [
    | inl e ↦ rw (view_reply, e) (basenet-Calls q.site site_id (to_nat q.leg_offset) paging links)
    | inr e ↦ elim (Bool-cases q.full) [
      | inl k ↦ rw (view_reply, e, k) (silent _ (λ log. refl))
      | inr k ↦ rw (view_reply, e, k) (silent _ (λ log. refl))
    ]
  ]

  topology_reply-Calls :
      (q : Query) (paging : Paging) (site_id data_ : Value)
      → Calls (fanout_limit b.env) (topology_reply b q paging site_id data_)
  unfolding topology_reply
  topology_reply-Calls q paging site_id data_ =
      elim (Bool-cases (q.basenet_view && not (truthy site_id))) [
        | inl e ↦ rw (topology_reply, e) (silent _ (λ log. refl))
        | inr e ↦ elim (Bool-cases (below q.leg_offset 0)) [
          | inl k ↦ rw (topology_reply, e, k) (silent _ (λ log. refl))
          | inr k ↦
              rw (topology_reply, e, k)
                (raising-Adds _ _ _ (λ kept h. view_reply-Calls q paging site_id _ kept))
        ]
      ]

  site_id_of-Calls : (site : Option Text) → Calls 0 (site_id_of b site)
  unfolding site_id_of given
  site_id_of-Calls none = none-Adds (λ log. refl)
  site_id_of-Calls (some []) = none-Adds (λ log. refl)
  site_id_of-Calls (some (c ∷ cs)) = id_of_named-Adds b "site" (c ∷ cs)

  pub get_topology-Calls :
      (q : Query) (paging : Paging) → Calls (1 + fanout_limit b.env) (get_topology b q paging)
  unfolding get_topology
  get_topology-Calls q paging = try_tool-Adds b _ _ _ (
      bind-Adds 0 (1 + fanout_limit b.env) _ (omega arith) (site_id_of-Calls q.site) (λ site_id.
        either-Calls (is_unfiltered b q site_id) _ (silent _ (λ log. refl)) (
          bind-Adds 1 (fanout_limit b.env) _ (omega arith) (execute-Adds b _ _ _ tt) (λ data_.
            unless_failed-Adds b _ data_ _ _ (topology_reply-Calls q paging site_id data_)))))

  pub get_interfaces-Calls :
      (element : Text) (site : Option Text) (mode : Mode) (interface : Option Text)
      (paging : Paging)
      → Calls (1 + fanout_limit b.env) (get_interfaces b element site mode interface paging)
  unfolding get_interfaces ids_of
  get_interfaces-Calls element site mode interface paging = try_tool-Adds b _ _ _ (
      bind-Adds 0 (1 + fanout_limit b.env) _ (omega arith) (none-Adds (λ log. refl)) (λ ids.
        either-Calls (not (truthy ids.site_id && truthy ids.element_id)) _ (silent _ (λ log. refl))
          (bind-Adds 1 (fanout_limit b.env) _ (omega arith) (execute-Adds b _ _ _ tt) (λ data_.
            reply_chosen-Calls ids mode element paging (chosen b.repr (records data_) interface)))))
