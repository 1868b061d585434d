-- ===== src/Cli/Run/Report.antt =====
-- tools/cli.py: the steps in front of a report, and what it holds.
use prisma_sdwan_mcp.Cli.Policy.{Command, BatchDecision, sequence, validate_batch}
use prisma_sdwan_mcp.Cli.Policy.Batch.{AllApproved, validate_batch_iff}
use prisma_sdwan_mcp.Errors.{Failure}
use prisma_sdwan_mcp.Prelude.{
  Bool-cases, Option-cases, length, ℕ, ◌≤◌, ◌≡◌, refl, ◌⊎◌, inl, inr, true, Option, none, some,
  List, map,
}
use prisma_sdwan_mcp.Prelude.Text.{Text}
use prisma_sdwan_mcp.Prelude.Int.{pos}
use prisma_sdwan_mcp.Prelude.Result.{Result, err, ok}
use prisma_sdwan_mcp.Value.{Value}
use prisma_sdwan_mcp.Config.{
  Env, ConfigError, IonCredentials, get_ion_ssh_port, get_ion_max_commands,
}
use prisma_sdwan_mcp.Safety.{redact}
use prisma_sdwan_mcp.Resolver.{given}
use prisma_sdwan_mcp.Cli.Address.{Address, resolve_device_address}
use prisma_sdwan_mcp.Cli.Reply.{Target, report, payload, reply_of}
use prisma_sdwan_mcp.Cli.Ssh.Execute.{
  CommandResult, unreachable, host_key, authentication, rate_limited, connection, validation,
  SessionResult, done, failed_with, invalid, Escape, execute_commands,
}
use prisma_sdwan_mcp.Cli.Ssh.Results.{Answers, execute_commands-IsReport}
use prisma_sdwan_mcp.Cli.Run.{
  Call, configured_credentials, Settings, read_settings, command_text, Server, resolved_target,
  request_for, session_reply, with_settings, at_target, at_address, given_host, choose_target,
  with_credentials, decided, run_commands,
}

pub limit_read :
    (env : Env)
    → ((limit : ℕ) × (get_ion_max_commands env ≡ ok limit))
      ⊎ ((x : ConfigError) × (get_ion_max_commands env ≡ err x))
limit_read env = go (get_ion_max_commands env)
  where
    go :
        (r : Result ConfigError ℕ)
        → ((limit : ℕ) × (r ≡ ok limit)) ⊎ ((x : ConfigError) × (r ≡ err x))
    go (ok limit) = inl (limit, refl)
    go (err x) = inr (x, refl)

pub unread_limit :
    (env : Env) (cs : List Command) (x : ConfigError)
    → get_ion_max_commands env ≡ err x
    → validate_batch env (sequence cs) none ≡ err x
unfolding validate_batch
unread_limit env cs x e = rw e refl

module _ {S Key : Type 0} (v : Server S Key) (env : Env) where
  -- The address is the caller's, or else the one that the element's name resolves to.
  abbrev pub IsTarget : Call → S → Target → Type 0
  IsTarget call s t =
      ((host : Text) × (given call.host ≡ some host) × (t.host ≡ host))
      ⊎ ((element : Text) × (a : Address) × (given call.host ≡ none)
          × (given call.element ≡ some element)
          × (resolve_device_address (v.services s) element call.site ≡ ok a)
          × (t.host ≡ a.host))

  -- The report is the redaction of the results of the commands, in their order, at that address.
  abbrev pub IsReportOf : Call → Target → Value → Type 0
  IsReportOf call t p =
      (rs : List CommandResult) × (p ≡ redact v.patterns (payload t rs))
      × (map (λ r. r.command) rs ≡ map command_text call.commands)

  session_reply-IsReportOf :
      (call : Call) (t : Target) (cap cap' : ℕ) (out : Result Escape SessionResult × S)
      (shown : Text) (p : Value) (s' : S)
      → ((r : SessionResult) (s1 : S)
          → out ≡ (ok r, s1)
          → Answers (map command_text call.commands) r)
      → session_reply v env t cap out ≡ (ok (report shown p cap'), s')
      → IsReportOf call t p
  unfolding session_reply reply_of
  session_reply-IsReportOf call t cap cap' (err e, s) shown p s' h k = cc
  session_reply-IsReportOf call t cap cap' (ok (done rs), s) shown p s' h k =
      (rs, cc, h (done rs) s refl)
  session_reply-IsReportOf call t cap cap' (ok (invalid e), s) shown p s' h k = cc
  session_reply-IsReportOf call t cap cap' (ok (failed_with unreachable m c), s) shown p s' h k = cc
  session_reply-IsReportOf call t cap cap' (ok (failed_with host_key m c), s) shown p s' h k = cc
  session_reply-IsReportOf call t cap cap' (ok (failed_with authentication m c), s) shown p s' h k =
      cc
  session_reply-IsReportOf call t cap cap' (ok (failed_with rate_limited m c), s) shown p s' h k =
      cc
  session_reply-IsReportOf call t cap cap' (ok (failed_with connection m c), s) shown p s' h k = cc
  session_reply-IsReportOf call t cap cap' (ok (failed_with validation m c), s) shown p s' h k = cc

  with_settings-IsReportOf :
      (call : Call) (c : Text × IonCredentials) (t : Target) (o : Result ConfigError Settings)
      (s : S) (shown : Text) (p : Value) (cap : ℕ) (s' : S)
      → with_settings v env call c t o s ≡ (ok (report shown p cap), s')
      → IsReportOf call t p
  unfolding with_settings
  with_settings-IsReportOf call c t (err e) s shown p cap s' h = cc
  with_settings-IsReportOf call (username, c) t (ok settings) s shown p cap s' h =
      session_reply-IsReportOf call t settings.cap cap
        (execute_commands v.is_word v.net v.parsers env (request_for v env t username c settings)
          settings.probe_timeout (some (pos settings.cap)) (map command_text call.commands) s)
        shown p s'
        (λ r s1 e.
          (execute_commands-IsReport v.is_word v.net v.parsers env
            (request_for v env t username c settings) settings.probe_timeout
            (some (pos settings.cap)) (map command_text call.commands) s s1 r e).0)
        h

  abbrev pub IsReportAt : Call → S → Value → Type 0
  IsReportAt call s p = (t : Target) × IsTarget call s t × IsReportOf call t p

  at_address-IsReportAt :
      (call : Call) (c : Text × IonCredentials) (port : ℕ) (element : Text)
      (r : Result Failure Address) (s s1 : S) (shown : Text) (p : Value) (cap : ℕ) (s' : S)
      → given call.host ≡ none
      → given call.element ≡ some element
      → ((a : Address) → r ≡ ok a → resolve_device_address (v.services s) element call.site ≡ ok a)
      → at_address v env call c port r s1 ≡ (ok (report shown p cap), s')
      → IsReportAt call s p
  unfolding at_address at_target
  at_address-IsReportAt call c port element (err x) s s1 shown p cap s' g e k h = cc
  at_address-IsReportAt call c port element (ok a) s s1 shown p cap s' g e k h =
      let t = resolved_target port a in
      (
        t,
        inr (element, a, g, e, k a refl, refl),
        with_settings-IsReportOf call c t (read_settings env (length call.commands)) s1 shown p cap
            s' h,
      )

  choose_target-IsReportAt :
      (call : Call) (c : Text × IonCredentials) (host element : Option Text)
      (port : Result ConfigError ℕ) (s : S) (shown : Text) (p : Value) (cap : ℕ) (s' : S)
      → given call.host ≡ host
      → given call.element ≡ element
      → choose_target v env call c host element port s ≡ (ok (report shown p cap), s')
      → IsReportAt call s p
  unfolding choose_target at_target at_address given_host
  choose_target-IsReportAt call c none none port s shown p cap s' g e h = cc
  choose_target-IsReportAt call c (some host) element (err x) s shown p cap s' g e h = cc
  choose_target-IsReportAt call c (some host) element (ok port) s shown p cap s' g e h =
      let t = given_host v env call host port in
      (
        t,
        inl (host, g, refl),
        with_settings-IsReportOf call c t (read_settings env (length call.commands)) s shown p cap
            s' h,
      )
  choose_target-IsReportAt call c none (some element) (err x) s shown p cap s' g e h = cc
  choose_target-IsReportAt call c none (some element) (ok port) s shown p cap s' g e h =
      at_address-IsReportAt call c port element
        (resolve_device_address (v.services s) element call.site) s
        (v.after_resolution element call.site s) shown p cap s' g e (λ a x. x) h

  pub record IsReported (call : Call) (s : S) (p : Value) : Type 0 where
    pub non_empty : 1 ≤ length call.commands
    pub approved : AllApproved call.commands
    pub user : Text × IonCredentials
    pub configured : configured_credentials env ≡ some user
    pub at : IsReportAt call s p

  with_credentials-IsReported :
      (call : Call) (s : S) (shown : Text) (p : Value) (cap : ℕ) (s' : S)
      → 1 ≤ length call.commands
      → AllApproved call.commands
      → with_credentials v env call (configured_credentials env) s ≡ (ok (report shown p cap), s')
      → IsReported call s p
  unfolding with_credentials
  with_credentials-IsReported call s shown p cap s' a b h =
      elim (Option-cases (configured_credentials env)) [
        | inl e ↦ cc (rw (with_credentials, e) at h)
        | inr (c, e) ↦ record {
          non_empty = a;
          approved = b;
          user = c;
          configured = e;
          at =
              choose_target-IsReportAt call c (given call.host) (given call.element)
                (get_ion_ssh_port env) s shown p cap s' refl refl (rw (with_credentials, e) at h);
        }
      ]

  decided-IsReported :
      (call : Call) (d : BatchDecision) (s : S) (shown : Text) (p : Value) (cap : ℕ) (s' : S)
      → (d.allowed ≡ true → (1 ≤ length call.commands) × AllApproved call.commands)
      → decided v env call (ok d) s ≡ (ok (report shown p cap), s')
      → IsReported call s p
  unfolding decided
  decided-IsReported call d s shown p cap s' k h = elim (Bool-cases d.allowed) [
    | inr e ↦ cc (rw e at h)
    | inl e ↦ with_credentials-IsReported call s shown p cap s' (k e).0 (k e).1 (rw e at h)
  ]

  -- A report is made only of a batch that is not empty and has approved commands alone, with a user
  -- name and exactly one credential configured, at the caller's address or else at the one that the
  -- element's name resolves to; and it is the redaction of the commands' results, in their order.
  pub run_commands-IsReported :
      (call : Call) (s s' : S) (shown : Text) (p : Value) (cap : ℕ)
      → run_commands v env call s ≡ (ok (report shown p cap), s')
      → IsReported call s p
  unfolding run_commands decided
  run_commands-IsReported call s s' shown p cap h = elim (limit_read env) [
    | inl (limit, e) ↦
        let (d, f, g) = validate_batch_iff env none limit call.commands e in
        decided-IsReported call d s shown p cap s' (λ a. let (x, y, z) = g.0 a in (x, z))
          (rw (run_commands, f) at h)
    | inr (x, e) ↦ cc (rw (run_commands, unread_limit env call.commands x e) at h)
  ]
