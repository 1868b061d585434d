-- ===== src/Tools/Core/Fanout/HealthView.antt =====
-- tools/core.py: how many calls `get_device_health` makes, and the three tools with a fan-out.
use prisma_sdwan_mcp.Prelude.{
  ltb, Bool-cases, ℕ, ◌+◌, ◌≤◌, ◌≡◌, refl, ◌⊎◌, inl, inr, Bool, true, false, not, ◌||◌, Option,
  none, [], ◌∷◌, arith,
}
use prisma_sdwan_mcp.Prelude.Text.{Text}
use prisma_sdwan_mcp.Prelude.Int.{ℤ, below, to_nat}
use prisma_sdwan_mcp.Value.{Fields, truthy}
use prisma_sdwan_mcp.Resolver.{SiteElement}
use prisma_sdwan_mcp.Tools.{Log, Toolbox, ids_of, first_truthy}
use prisma_sdwan_mcp.Tools.Replies.{Paging, single}
use prisma_sdwan_mcp.Tools.Calls.{
  Adds, fanout_limit, none-Adds, bind-Adds, execute-Adds, try_tool-Adds, unless_failed-Adds,
}
use prisma_sdwan_mcp.Tools.Core.Interfaces.{Mode, get_interfaces}
use prisma_sdwan_mcp.Tools.Core.Topology.{Query, get_topology}
use prisma_sdwan_mcp.Tools.Core.Health.{
  Health, add_software, interface_status, read_interfaces, add_interfaces, reply_health,
  get_device_health,
}
use prisma_sdwan_mcp.Tools.Core.Fanout.{
  AnyCall, Calls, silent, either-Calls, max_fanout-Calls, gather-Calls, get_topology-Calls,
  get_interfaces-Calls,
}

few : (test : Bool) (most n k : ℕ) → most ≤ k → (test || ltb most n) ≡ false → n ≤ k
few test most n k le e = ground arith

module _ (b : Toolbox) where
  interface_status-Calls :
      (ids : SiteElement) (interface : Fields) → Calls 1 (interface_status b ids interface)
  unfolding interface_status
  interface_status-Calls ids interface =
      either-Calls (truthy (first_truthy ("id" ∷ "interface_id" ∷ []) interface)) 1
        (bind-Adds 1 0 1 (omega arith) (execute-Adds b _ _ none tt) (λ s. none-Adds (λ log. refl)))
        (silent 1 (λ log. refl))

  add_software-Calls :
      (include : Bool) (ids : SiteElement) (h : Health) → Calls 2 (add_software b include ids h)
  unfolding add_software
  add_software-Calls false ids h = silent 2 (λ log. refl)
  add_software-Calls true ids h = bind-Adds 1 1 2 (omega arith) (execute-Adds b _ _ none tt) (λ s.
      bind-Adds 1 0 1 (omega arith) (execute-Adds b _ _ none tt) (λ t. none-Adds (λ log. refl)))

  read_interfaces-Calls :
      (limit n : ℕ) (ids : SiteElement) (h : Health)
      → limit ≤ n
      → Calls (1 + n) (read_interfaces b limit ids h)
  unfolding read_interfaces
  read_interfaces-Calls limit n ids h le =
      bind-Adds 1 n _ (omega arith) (execute-Adds b _ _ none tt) (λ data_.
        bind-Adds n 0 n (omega arith)
          (gather-Calls b (interface_status b ids) limit n _ le (interface_status-Calls ids))
          (λ s. none-Adds (λ log. refl)))

  add_interfaces-Calls :
      (include : Bool) (limit : ℤ) (ids : SiteElement) (h : Health)
      → Calls (1 + fanout_limit b.env) (add_interfaces b include limit ids h)
  unfolding add_interfaces
  add_interfaces-Calls false limit ids h = silent _ (λ log. refl)
  add_interfaces-Calls true limit ids h =
      either-Calls (not (truthy ids.site_id)) _ (silent _ (λ log. refl)) (
        max_fanout-Calls b (1 + fanout_limit b.env) (λ most le.
          elim (Bool-cases (below limit 1 || ltb most (to_nat limit))) [
            | inl e ↦ rw e (silent _ (λ log. refl))
            | inr e ↦ rw e (
                bind-Adds (1 + fanout_limit b.env) 0 _ (omega arith)
                  (read_interfaces-Calls (to_nat limit) (fanout_limit b.env) ids h
                    (few (below limit 1) most (to_nat limit) (fanout_limit b.env) le e))
                  (λ h'. none-Adds (λ log. refl)))
          ]))

  get_device_health-Calls :
      (element : Text) (site : Option Text) (software interfaces : Bool) (limit : ℤ)
      → Calls (4 + fanout_limit b.env) (get_device_health b element site software interfaces limit)
  unfolding get_device_health ids_of reply_health single
  get_device_health-Calls element site software interfaces limit = try_tool-Adds b _ _ _ (
      bind-Adds 0 (4 + fanout_limit b.env) _ (omega arith) (none-Adds (λ log. refl)) (λ ids.
        either-Calls (not (truthy ids.element_id)) _ (silent _ (λ log. refl)) (
          bind-Adds 1 (3 + fanout_limit b.env) _ (omega arith) (execute-Adds b _ _ none tt)
            (λ health. unless_failed-Adds b _ health _ _ (
              bind-Adds 2 (1 + fanout_limit b.env) _ (omega arith)
                (add_software-Calls software ids _)
                (λ h.
                  bind-Adds (1 + fanout_limit b.env) 0 _ (omega arith)
                    (add_interfaces-Calls interfaces limit ids h)
                    (λ outcome. none-Adds (reply-same element ids outcome))))))))
    where
      reply-same :
          (element : Text) (ids : SiteElement) (outcome : Fields ⊎ Health) (log : Log)
          → (reply_health b element ids outcome log).1 ≡ log
      reply-same element ids (inl reply) log = refl
      reply-same element ids (inr h) log = refl

-- One call of get_interfaces or get_topology makes at most one call of the executor more than the
-- ceiling of the fan-out, and one of get_device_health at most four more, whatever the controller
-- answers; the ceiling counts as 0 where it cannot be read.
pub core_tools-Adds :
    (b : Toolbox)
    → ((element : Text) (site : Option Text) (mode : Mode) (interface : Option Text)
          (paging : Paging)
        → Adds AnyCall
            (1 + fanout_limit b.env)
            (get_interfaces b element site mode interface paging))
      × ((q : Query) (paging : Paging)
          → Adds AnyCall (1 + fanout_limit b.env) (get_topology b q paging))
      × ((element : Text) (site : Option Text) (software interfaces : Bool) (limit : ℤ)
          → Adds AnyCall
              (4 + fanout_limit b.env)
              (get_device_health b element site software interfaces limit))
core_tools-Adds b = (get_interfaces-Calls b, get_topology-Calls b, get_device_health-Calls b)
