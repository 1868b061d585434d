-- ===== src/Cli/Run/Order.antt =====
-- tools/cli.py: what is refused, and when.
use prisma_sdwan_mcp.Prelude.{
  Bool-cases, Option-cases, ℕ, ◌≡◌, refl, inl, inr, true, false, none, some, List,
}
use prisma_sdwan_mcp.Prelude.Text.{Text}
use prisma_sdwan_mcp.Prelude.Result.{ok}
use prisma_sdwan_mcp.Config.{Env, IonCredentials, get_ion_max_commands}
use prisma_sdwan_mcp.Cli.Policy.{Command, BatchDecision}
use prisma_sdwan_mcp.Cli.Policy.Batch.{IsAcceptable, validate_batch_iff}
use prisma_sdwan_mcp.Cli.Reply.{Reply, policy_denied, not_configured}
use prisma_sdwan_mcp.Cli.Run.{
  Call, configured_credentials, Server, with_credentials, decided, run_commands,
}

-- A reply that refuses the call for its commands or for the credentials.
abbrev pub IsRefusal : Reply → Type 0
IsRefusal (policy_denied d) = d.allowed ≡ false
IsRefusal not_configured = Unit
IsRefusal _ = ⊥

-- A call may go on: the commands are acceptable, and there is a user name with one credential.
abbrev pub MayGoOn : Env → ℕ → List Command → Type 0
MayGoOn env limit cs =
    IsAcceptable limit cs × ((c : Text × IonCredentials) × (configured_credentials env ≡ some c))

module _ {S Key : Type 0} (v : Server S Key) (env : Env) where
  decided-refused :
      (call : Call) (d : BatchDecision) (s : S)
      → ¬ (
          (d.allowed ≡ true)
          × ((c : Text × IonCredentials) × (configured_credentials env ≡ some c)))
      → (reply : Reply) × (decided v env call (ok d) s ≡ (ok reply, s)) × IsRefusal reply
  unfolding decided with_credentials
  decided-refused call d s h = elim (Bool-cases d.allowed) [
    | inr e ↦ (policy_denied d, rw e refl, e)
    | inl e ↦ elim (Option-cases (configured_credentials env)) [
      | inl f ↦ (not_configured, rw (e, f) refl, tt)
      | inr (c, f) ↦ absurd (h (e, (c, f)))
    ]
  ]

  -- If the limit can be read and the commands are not acceptable, or there is no user name with
  -- exactly one credential, then the call is refused and the world is as it was: nothing was
  -- resolved, probed or opened.
  pub run_commands-IsRefusal :
      (call : Call) (limit : ℕ) (s : S)
      → get_ion_max_commands env ≡ ok limit
      → ¬ MayGoOn env limit call.commands
      → (reply : Reply) × (run_commands v env call s ≡ (ok reply, s)) × IsRefusal reply
  unfolding run_commands
  run_commands-IsRefusal call limit s h k =
      let (d, e, f) = validate_batch_iff env none limit call.commands h in
      rw e (decided-refused call d s (λ (a, c). k (f.0 a, c)))
