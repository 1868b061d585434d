-- ===== src/Tools/Discovery/Expert.antt =====
-- tools/discovery.py: what `read_capability` calls.
use prisma_sdwan_mcp.Prelude.{
  ltb, if◌then◌else◌, Bool-cases, length, is_empty, ◌≡◌, refl, inl, inr, Bool, true, false, not,
  ◌&&◌, Option, arith,
}
use prisma_sdwan_mcp.Prelude.Text.{Text, strip}
use prisma_sdwan_mcp.Prelude.Result.{ok}
use prisma_sdwan_mcp.Errors.{of_catalog-ok}
use prisma_sdwan_mcp.Config.{Env, expert_tool_enabled, allow_unverified_compat}
use prisma_sdwan_mcp.Value.{Value, null, bool, int, real, str, list, dict, Fields}
use prisma_sdwan_mcp.Value.Names.{name_of}
use prisma_sdwan_mcp.Catalog.{ActionSpec, get_action}
use prisma_sdwan_mcp.Catalog.Describe.{Registry, expert_blocked}
use prisma_sdwan_mcp.Tools.{Call, Log, Toolbox, Step}
use prisma_sdwan_mcp.Tools.Replies.{Paging, listing, single}
use prisma_sdwan_mcp.Tools.Calls.{
  Adds, none-Adds, more-Adds, bind-Adds, raising-Adds, execute-Adds, try_tool-Adds,
  unless_failed-Adds,
}
use prisma_sdwan_mcp.Tools.Discovery.Catalog.{
  executed_reply, run_action, checked_action, read_reply, read_capability,
}
use prisma_sdwan_mcp.Resolver.Records.{records}

-- A call that a caller may make by the id of an action: the tool is enabled, the id is in the catalog,
-- and it is not blocked or blocked actions are allowed; the arguments are the caller's.
abbrev pub IsAllowed : Env → Registry → Text → Fields → Option Fields → Call → Type 0
IsAllowed env r action_id paths body c =
    (expert_tool_enabled env ≡ true)
    × ((action : ActionSpec) × (get_action r.actions action_id ≡ ok action))
    × ((expert_blocked r action_id && not (allow_unverified_compat env)) ≡ false)
    × (c ≡ record { action = name_of action_id; paths = paths; body = body })

either-same :
    (test : Bool) (m k : Step Fields) (log : Log)
    → (m log).1 ≡ log
    → (k log).1 ≡ log
    → ((if test then m else k) log).1 ≡ log
either-same true m k log e h = e
either-same false m k log e h = h

module _ (b : Toolbox) (r : Registry) (paths : Fields) (body : Option Fields) where
  executed_reply-same :
      (action_id : Text) (action : ActionSpec) (paging : Paging) (full : Bool) (value : Value)
      (log : Log)
      → (executed_reply b r action_id action paging full value log).1 ≡ log
  unfolding executed_reply listing single
  executed_reply-same action_id action paging full value log = go value
    where
      go : (v : Value) → (executed_reply b r action_id action paging full v log).1 ≡ log
      go (list vs) = refl
      go null = either-same (ltb 1 (length (records null))) _ _ log refl refl
      go (bool x) = either-same (ltb 1 (length (records (bool x)))) _ _ log refl refl
      go (int z) = either-same (ltb 1 (length (records (int z)))) _ _ log refl refl
      go (real t) = either-same (ltb 1 (length (records (real t)))) _ _ log refl refl
      go (str s) = either-same (ltb 1 (length (records (str s)))) _ _ log refl refl
      go (dict fs) = either-same (ltb 1 (length (records (dict fs)))) _ _ log refl refl

  checked_action-Adds :
      (action_id : Text) (action : ActionSpec) (paging : Paging) (full : Bool)
      → expert_tool_enabled b.env ≡ true
      → get_action r.actions action_id ≡ ok action
      → Adds
          (IsAllowed b.env r action_id paths body)
          1
          (checked_action b r action_id paths body paging full action)
  unfolding checked_action run_action
  checked_action-Adds action_id action paging full enabled known =
      elim (Bool-cases (expert_blocked r action_id && not (allow_unverified_compat b.env))) [
        | inl e ↦ rw (checked_action, e) (more-Adds _ 0 1 (omega arith) (none-Adds (λ log. refl)))
        | inr e ↦
            rw (checked_action, e)
              (bind-Adds 1 0 1 (omega arith)
                (execute-Adds b (name_of action_id) paths body (enabled, (action, known), e, refl))
                (λ value.
                  unless_failed-Adds b _ value _ 0
                    (none-Adds (executed_reply-same action_id action paging full value))))
      ]

  read_reply-Adds :
      (action_id : Text) (paging : Paging) (full : Bool)
      → expert_tool_enabled b.env ≡ true
      → Adds
          (IsAllowed b.env r (strip action_id) paths body)
          1
          (read_reply b r action_id paths body paging full)
  unfolding read_reply
  read_reply-Adds action_id paging full enabled = elim (Bool-cases (is_empty (strip action_id))) [
    | inl e ↦ rw (read_reply, e) (more-Adds _ 0 1 (omega arith) (none-Adds (λ log. refl)))
    | inr e ↦
        rw (read_reply, e)
          (raising-Adds _ _ 1 (λ action known.
            checked_action-Adds (strip action_id) action paging full enabled
              (of_catalog-ok _ action known)))
  ]

-- A call of read_capability makes at most one call of the executor, and only if the expert tool is
-- enabled, the stripped id is one of the catalog's actions, and the action is not blocked or blocked
-- actions are allowed; the call is that of this id with the caller's path parameters and body.
pub read_capability-Adds :
    (b : Toolbox) (r : Registry) (action_id : Text) (paths : Fields) (body : Option Fields)
    (paging : Paging) (full : Bool)
    → Adds
        (IsAllowed b.env r (strip action_id) paths body)
        1
        (read_capability b r action_id paths body paging full)
unfolding read_capability
read_capability-Adds b r action_id paths body paging full =
    elim (Bool-cases (expert_tool_enabled b.env)) [
      | inl e ↦
          rw (read_capability, e)
            (try_tool-Adds b _ _ 1 (read_reply-Adds b r paths body action_id paging full e))
      | inr e ↦ rw (read_capability, e) (more-Adds _ 0 1 (omega arith) (none-Adds (λ log. refl)))
    ]
