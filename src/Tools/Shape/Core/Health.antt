-- ===== src/Tools/Shape/Core/Health.antt =====
-- tools/core.py: the reply of `get_device_health`.
use prisma_sdwan_mcp.Prelude.{
  ltb, if_kept, ℕ, refl, ◌⊎◌, inl, inr, Bool, true, false, not, ◌||◌, Option, none, some, ◌++◌,
}
use prisma_sdwan_mcp.Prelude.Int.{ℤ, below, to_nat}
use prisma_sdwan_mcp.Prelude.Text.{Text, codes}
use prisma_sdwan_mcp.Value.{Fields, end, get, has, truthy}
use prisma_sdwan_mcp.Resolver.Records.{decimal}
use prisma_sdwan_mcp.Resolver.{SiteElement}
use prisma_sdwan_mcp.Response.Envelope.{count}
use prisma_sdwan_mcp.Response.Shape.{IsError, IsReply, structured_error-IsError}
use prisma_sdwan_mcp.Tools.{Log, Toolbox, execute, ids_of, max_fanout}
use prisma_sdwan_mcp.Tools.Shape.{
  apart, Yields, return-Yields, bind-Yields, chain-Yields, refused-Yields, try_tool-IsReply,
  single-Yields, unless_failed-Yields,
}
use prisma_sdwan_mcp.Tools.Domains.{element_paths, id_paths}
use prisma_sdwan_mcp.Tools.Core.Health.{
  tool, Health, add_software, read_interfaces, invalid_limit_reply, add_interfaces, reply_health,
  get_device_health,
}

-- An early reply is an error.
abbrev IsOutcome : Fields ⊎ Health → Type 0
IsOutcome (inl reply) = IsError tool reply
IsOutcome (inr h) = Unit

module _ (b : Toolbox) where
  invalid_limit-IsError : (most : ℕ) → IsError tool (invalid_limit_reply b most)
  unfolding invalid_limit_reply
  invalid_limit-IsError most =
      structured_error-IsError (codes "invalid_limit")
        (codes "interface_limit must be between 1 and " ++ decimal most) tool (count 400) end

  add_interfaces-Yields :
      (include : Bool) (limit : ℤ) (ids : SiteElement) (h : Health)
      → Yields IsOutcome (add_interfaces b include limit ids h)
  unfolding add_interfaces
  add_interfaces-Yields false limit ids h = return-Yields IsOutcome (inr h) tt
  add_interfaces-Yields true limit ids h =
      if_kept (Yields IsOutcome) (not (truthy ids.site_id)) _ _ (return-Yields IsOutcome _ tt) (
        bind-Yields IsOutcome (max_fanout b) _ (λ most.
          if_kept (Yields IsOutcome) (below limit 1 || ltb most (to_nat limit)) _ _
            (return-Yields IsOutcome _ (invalid_limit-IsError most))
            (bind-Yields IsOutcome (read_interfaces b (to_nat limit) ids h) _
              (λ h'. return-Yields IsOutcome (inr h') tt))))

  reply_health-Yields :
      (element : Text) (ids : SiteElement) (outcome : Fields ⊎ Health)
      → IsOutcome outcome
      → Yields (IsReply tool) (reply_health b element ids outcome)
  unfolding reply_health has get
  reply_health-Yields element ids (inl reply) e = return-Yields (IsReply tool) reply (inr e)
  reply_health-Yields element ids (inr h) e =
      single-Yields b tool _ "health" _ (id_paths ids) (apart refl refl refl refl)

  pub get_device_health-IsReply :
      (element : Text) (site : Option Text) (software interfaces : Bool) (limit : ℤ) (log : Log)
      → IsReply
          (codes "get_device_health")
          (get_device_health b element site software interfaces limit log).0
  unfolding get_device_health
  get_device_health-IsReply element site software interfaces limit log =
      try_tool-IsReply b tool _
        (bind-Yields (IsReply tool) (ids_of b site (some element)) _ (λ ids.
          if_kept (Yields (IsReply tool)) (not (truthy ids.element_id)) _ _
            (refused-Yields "not_found" "element could not be resolved" tool 404)
            (bind-Yields (IsReply tool)
              (execute b "sites_devices.element_status" (element_paths ids) none) _
              (λ health. unless_failed-Yields b tool health _ (
                bind-Yields (IsReply tool) (add_software b software ids _) _ (λ h.
                  chain-Yields IsOutcome (IsReply tool) (add_interfaces b interfaces limit ids h) _
                    (add_interfaces-Yields interfaces limit ids h)
                    (λ outcome e. reply_health-Yields element ids outcome e)))))))
        log
