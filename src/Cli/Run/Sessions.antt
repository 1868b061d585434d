-- ===== src/Cli/Run/Sessions.antt =====
-- tools/cli.py: the connections that are open behind a call of the tool.
use prisma_sdwan_mcp.Prelude.{
  Bool-cases, length, ℕ, ◌≡◌, refl, ◌∙◌, inl, inr, Option, none, some, map,
}
use prisma_sdwan_mcp.Prelude.Text.{Text}
use prisma_sdwan_mcp.Prelude.Int.{pos}
use prisma_sdwan_mcp.Prelude.Result.{Result, err, ok}
use prisma_sdwan_mcp.Errors.{Failure}
use prisma_sdwan_mcp.Config.{Env, ConfigError, IonCredentials, get_ion_ssh_port}
use prisma_sdwan_mcp.Resolver.{given}
use prisma_sdwan_mcp.Cli.Policy.{BatchDecision, sequence, validate_batch}
use prisma_sdwan_mcp.Cli.Address.{Address, resolve_device_address}
use prisma_sdwan_mcp.Cli.Reply.{Target}
use prisma_sdwan_mcp.Cli.Ssh.Order.{Tracked, execute_commands-opened}
use prisma_sdwan_mcp.Cli.Ssh.Execute.{SessionResult, Escape, execute_commands}
use prisma_sdwan_mcp.Cli.Run.{
  Call, configured_credentials, Settings, read_settings, command_text, Server, resolved_target,
  request_for, session_reply, with_settings, at_target, at_address, given_host, choose_target,
  with_credentials, decided, run_commands,
}

module _ {S Key : Type 0} (v : Server S Key) (env : Env) (t : Tracked v.net)
    (kept : (e : Text) (site : Option Text) (s : S)
      → t.opened (v.after_resolution e site s) ≡ t.opened s) where
  session_reply-opened :
      (target : Target) (n : ℕ) (out : Result Escape SessionResult × S)
      → t.opened (session_reply v env target n out).1 ≡ t.opened out.1
  unfolding session_reply
  session_reply-opened target n (err e, s) = refl
  session_reply-opened target n (ok r, s) = refl

  with_settings-opened :
      (call : Call) (c : Text × IonCredentials) (target : Target) (o : Result ConfigError Settings)
      (s : S)
      → t.opened (with_settings v env call c target o s).1 ≡ t.opened s
  unfolding with_settings
  with_settings-opened call c target (err e) s = refl
  with_settings-opened call (username, c) target (ok settings) s =
      session_reply-opened target settings.cap (
        execute_commands v.is_word v.net v.parsers env
          (request_for v env target username c settings) settings.probe_timeout
          (some (pos settings.cap)) (map command_text call.commands) s)
      ∙ execute_commands-opened v.is_word v.net t v.parsers env
          (request_for v env target username c settings) settings.probe_timeout
          (some (pos settings.cap)) (map command_text call.commands) s

  at_address-opened :
      (call : Call) (c : Text × IonCredentials) (port : ℕ) (r : Result Failure Address) (s : S)
      → t.opened (at_address v env call c port r s).1 ≡ t.opened s
  unfolding at_address at_target
  at_address-opened call c port (err e) s = refl
  at_address-opened call c port (ok a) s =
      with_settings-opened call c (resolved_target port a)
        (read_settings env (length call.commands)) s

  choose_target-opened :
      (call : Call) (c : Text × IonCredentials) (host element : Option Text)
      (port : Result ConfigError ℕ) (s : S)
      → t.opened (choose_target v env call c host element port s).1 ≡ t.opened s
  unfolding choose_target at_target
  choose_target-opened call c none none port s = refl
  choose_target-opened call c (some host) element (err e) s = refl
  choose_target-opened call c (some host) element (ok port) s =
      with_settings-opened call c (given_host v env call host port)
        (read_settings env (length call.commands)) s
  choose_target-opened call c none (some element) (err e) s = refl
  choose_target-opened call c none (some element) (ok port) s =
      at_address-opened call c port (resolve_device_address (v.services s) element call.site)
        (v.after_resolution element call.site s)
      ∙ kept element call.site s

  with_credentials-opened :
      (call : Call) (o : Option (Text × IonCredentials)) (s : S)
      → t.opened (with_credentials v env call o s).1 ≡ t.opened s
  unfolding with_credentials
  with_credentials-opened call none s = refl
  with_credentials-opened call (some c) s =
      choose_target-opened call c (given call.host) (given call.element) (get_ion_ssh_port env) s

  decided-opened :
      (call : Call) (r : Result ConfigError BatchDecision) (s : S)
      → t.opened (decided v env call r s).1 ≡ t.opened s
  unfolding decided
  decided-opened call (err e) s = refl
  decided-opened call (ok d) s = elim (Bool-cases d.allowed) [
    | inl e ↦ rw (decided, e) (with_credentials-opened call (configured_credentials env) s)
    | inr e ↦ rw (decided, e) refl
  ]

  -- Whatever becomes of a call, as many connections are open behind it as before, if the network
  -- opens and closes them as its record says and a resolution opens and closes none.
  pub run_commands-opened :
      (call : Call) (s : S) → t.opened (run_commands v env call s).1 ≡ t.opened s
  unfolding run_commands
  run_commands-opened call s =
      decided-opened call (validate_batch env (sequence call.commands) none) s
