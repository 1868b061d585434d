-- ===== src/Cli/Ssh/Sent.antt =====
-- cli/ssh.py: what a session sends to the device, and the results that stand for it.
use prisma_sdwan_mcp.Prelude.{
  All, ℕ, ◌≡◌, refl, sym, ap, ◌∙◌, subst, ◌⊎◌, inl, inr, Bool, Option, List, [], ◌∷◌, ◌++◌,
  append-nil, append_assoc,
}
use prisma_sdwan_mcp.Prelude.Text.{Text}
use prisma_sdwan_mcp.Prelude.Int.{ℤ}
use prisma_sdwan_mcp.Prelude.Result.{Result, err, ok}
use prisma_sdwan_mcp.Config.{Env, ConfigError}
use prisma_sdwan_mcp.Cli.Ssh.Output.{
  Exception, Device, resume, then_run, max_pagination_pages, completion_prompt, pages,
  send_command_with_pagination,
}
use prisma_sdwan_mcp.Cli.Ssh.Session.{
  Invalid, Request, ConnectionKwargs, Parser, build_connection_kwargs,
}
use prisma_sdwan_mcp.Cli.Ssh.Execute.{
  Answer, session_error, answered, CommandResult, SessionResult, done, failed_with, invalid,
  ProbeError, no_route, value_error, other_error, Escape, Network, output_cap, answer_then_prompt,
  command_result, command_results, use_connection, after_probe, probe_and_run, run_with_cap,
  execute_commands,
}
use prisma_sdwan_mcp.Cli.Ssh.Watched.{
  Quiet, resume-Keeps, completion_prompt-Keeps, pages-Keeps, answer_then_prompt-Keeps,
}
use prisma_sdwan_mcp.Cli.Ssh.Results.{IsUnreachable, execute_commands-IsReport}

-- A device whose world keeps the list of the commands that were sent to it.
pub record Recorded {S : Type 0} (sent : S → List Text) (d : Device S) : Type 0 where
  pub quiet : Quiet sent d
  pub on_send : (c p : Text) (s : S) → sent (d.send_command c p s).1 ≡ sent s ++ c ∷ []
  pub on_disconnect : (s : S) → sent (d.disconnect s).1 ≡ sent s

-- A network that sends no command itself, and connects to such devices.
pub record Records {S Key Seconds : Type 0} (net : Network S Key Seconds) : Type 0 where
  pub sent : S → List Text
  pub on_probe : (h : Text) (p : ℤ) (t : Seconds) (s : S) → sent (net.probe h p t s).1 ≡ sent s
  pub on_connect : (k : ConnectionKwargs Key Seconds) (s : S) → sent (net.connect k s).1 ≡ sent s
  pub on_open :
      (k : ConnectionKwargs Key Seconds) (s : S) (d : Device S)
      → (net.connect k s).0 ≡ ok d
      → Recorded sent d

abbrev pub IsError : Answer → Type 0
IsError (session_error e cut) = Unit
IsError (answered failed body truncated redacted sizes) = ⊥

-- One result for each command, in order, and the texts that were sent: each command once, in the same
-- order, but a command whose result is an error of the session may be missing.
abbrev pub AreSent : List Text → List CommandResult → List Text → Type 0
AreSent [] [] ts = ts ≡ []
AreSent (c ∷ cs) (r ∷ rs) ts =
    (r.command ≡ c)
    × (((us : List Text) × (ts ≡ c ∷ us) × AreSent cs rs us)
        ⊎ (IsError r.answer × AreSent cs rs ts))
AreSent [] (r ∷ rs) ts = ⊥
AreSent (c ∷ cs) [] ts = ⊥

-- The texts that a session with a result has sent: none if it has no list of results.
abbrev pub SessionSent : List Text → SessionResult → List Text → Type 0
SessionSent cs (done rs) ts = AreSent cs rs ts
SessionSent cs (failed_with t m c) ts = ts ≡ []
SessionSent cs (invalid e) ts = ts ≡ []

pub AreSent-All :
    (P : Text → Type 0) (cs : List Text) (rs : List CommandResult) (ts : List Text)
    → All P cs
    → AreSent cs rs ts
    → All P ts
AreSent-All P [] [] ts h e = rw e tt
AreSent-All P [] (r ∷ rs) ts h e = absurd e
AreSent-All P (c ∷ cs) [] ts h e = absurd e
AreSent-All P (c ∷ cs) (r ∷ rs) ts (p, h) (same, inl (us, e, are)) =
    rw e (p, AreSent-All P cs rs us h are)
AreSent-All P (c ∷ cs) (r ∷ rs) ts (p, h) (same, inr (raised, are)) = AreSent-All P cs rs ts h are

abbrev IsRaised : {A : Type 0} → Result Exception A → Type 0
IsRaised (err e) = Unit
IsRaised (ok a) = ⊥

module _ {S : Type 0} (sent : S → List Text) (d : Device S) (v : Recorded sent d) where
  -- The command has been sent, or an exception was raised before.
  Sends : Text → S → Result Exception Text × S → Type 0
  Sends c s out = (sent out.1 ≡ sent s ++ c ∷ []) ⊎ (IsRaised out.0 × (sent out.1 ≡ sent s))

  behind_prompt :
      (c : Text) (s : S) (out : Result Exception Text × S)
      → sent out.1 ≡ sent s
      → Sends c s (
          resume out
            (λ expect. then_run (d.send_command c expect) (pages d max_pagination_pages expect)))
  unfolding Sends
  behind_prompt c s (err e, s1) h = inr (tt, h)
  behind_prompt c s (ok expect, s1) h = inl (
      resume-Keeps sent (d.send_command c expect s1) (pages d max_pagination_pages expect)
        (pages-Keeps sent d v.quiet max_pagination_pages expect)
      ∙ v.on_send c expect s1
      ∙ ap (λ ts. ts ++ c ∷ []) h)

  send-Sends : (c : Text) (s : S) → Sends c s (send_command_with_pagination d c s)
  unfolding send_command_with_pagination
  send-Sends c s =
      behind_prompt c s (completion_prompt d s) (completion_prompt-Keeps sent d v.quiet s)

  module _ (is_word : ℕ → Bool) (cap : ℕ) (secrets : List (Option Text)) where
    raised-IsError :
        (out : Result Exception Text × S)
        → IsRaised out.0
        → IsError (answer_then_prompt is_word d cap secrets out).0
    unfolding answer_then_prompt
    raised-IsError (err e, s) h = tt
    raised-IsError (ok t, s) h = absurd h

    command_results-AreSent :
        (cs : List Text) (s : S)
        → (ts : List Text) × (sent (command_results is_word d cap secrets cs s).1 ≡ sent s ++ ts)
          × AreSent cs (command_results is_word d cap secrets cs s).0 ts
    unfolding command_results command_result Sends
    command_results-AreSent [] s = ([], sym (append-nil (sent s)), refl)
    command_results-AreSent (c ∷ cs) s =
        let out = send_command_with_pagination d c s in
        let kept = answer_then_prompt-Keeps sent d v.quiet is_word cap secrets out in
        let (ts, whole, later) =
          command_results-AreSent cs (command_result is_word d cap secrets c s).1 in
        elim (send-Sends c s) [
          | inl e ↦ (
            c ∷ ts,
            whole ∙ ap (λ us. us ++ ts) (kept ∙ e) ∙ append_assoc (sent s) (c ∷ []) ts,
            (refl, inl (ts, refl, later)),
          )
          | inr (raised, e) ↦ (
            ts,
            whole ∙ ap (λ us. us ++ ts) (kept ∙ e),
            (refl, inr (raised-IsError out raised, later)),
          )
        ]

module _ (is_word : ℕ → Bool) {S Key Seconds : Type 0} (net : Network S Key Seconds)
    (v : Records net) where
  -- What a session that began at `s` and came to its end has sent.
  abbrev pub HasSent : List Text → S → SessionResult × S → Type 0
  HasSent cs s out = (ts : List Text) × (v.sent out.1 ≡ v.sent s ++ ts) × SessionSent cs out.0 ts

  nothing_sent : (s s' : S) → v.sent s' ≡ v.sent s → v.sent s' ≡ v.sent s ++ []
  nothing_sent s s' h = h ∙ sym (append-nil (v.sent s))

  use_connection-HasSent :
      (cap : ℕ) (secrets : List (Option Text)) (cs : List Text) (s : S)
      (out : Result Exception (Device S) × S)
      → v.sent out.1 ≡ v.sent s
      → ((d : Device S) → out.0 ≡ ok d → Recorded v.sent d)
      → HasSent cs s (use_connection is_word cap secrets cs out)
  unfolding use_connection
  use_connection-HasSent cap secrets cs s (err e, s1) h k = ([], nothing_sent s s1 h, refl)
  use_connection-HasSent cap secrets cs s (ok d, s1) h k =
      let rec = k d refl in
      let (ts, whole, are) = command_results-AreSent v.sent d rec is_word cap secrets cs s1 in
      (
        ts,
        rec.on_disconnect (command_results is_word d cap secrets cs s1).1
            ∙ whole
            ∙ ap (λ us. us ++ ts) h,
        are,
      )

  -- The same of a session that may raise, and has sent nothing then.
  abbrev pub EndsSent : List Text → S → Result Escape SessionResult × S → Type 0
  EndsSent cs s (err e, s') = v.sent s' ≡ v.sent s
  EndsSent cs s (ok result, s') = HasSent cs s (result, s')

  after_probe-EndsSent :
      (cap : ℕ) (secrets : List (Option Text)) (cs : List Text) (k : ConnectionKwargs Key Seconds)
      (s : S) (p : Result ProbeError (Unit {0}) × S)
      → v.sent p.1 ≡ v.sent s
      → EndsSent cs s (after_probe is_word net cap secrets cs k p)
  unfolding after_probe
  after_probe-EndsSent cap secrets cs k s (err (no_route m), s1) h = ([], nothing_sent s s1 h, refl)
  after_probe-EndsSent cap secrets cs k s (err (value_error m), s1) h =
      ([], nothing_sent s s1 h, refl)
  after_probe-EndsSent cap secrets cs k s (err (other_error e), s1) h = h
  after_probe-EndsSent cap secrets cs k s (ok ready, s1) h =
      use_connection-HasSent cap secrets cs s (net.connect k s1) (v.on_connect k s1 ∙ h)
        (v.on_open k s1)

  probe_and_run-EndsSent :
      (r : Request Seconds) (wait : Seconds) (cap : ℕ) (cs : List Text)
      (kwargs : Result Invalid (ConnectionKwargs Key Seconds)) (s : S)
      → EndsSent cs s (probe_and_run is_word net r wait cap cs kwargs s)
  unfolding probe_and_run
  probe_and_run-EndsSent r wait cap cs (err e) s = ([], nothing_sent s s refl, refl)
  probe_and_run-EndsSent r wait cap cs (ok k) s =
      after_probe-EndsSent cap (r.password ∷ r.private_key ∷ r.private_key_passphrase ∷ []) cs k s
        (net.probe r.host r.port wait s) (v.on_probe r.host r.port wait s)

  run_with_cap-EndsSent :
      (parsers : List (Parser Key)) (r : Request Seconds) (wait : Seconds) (cs : List Text)
      (cap : Result ConfigError ℕ) (s : S)
      → EndsSent cs s (run_with_cap is_word net parsers r wait cs cap s)
  unfolding run_with_cap
  run_with_cap-EndsSent parsers r wait cs (err e) s = refl
  run_with_cap-EndsSent parsers r wait cs (ok cap) s =
      probe_and_run-EndsSent r wait cap cs (build_connection_kwargs parsers r) s

  pub execute_commands-EndsSent :
      (parsers : List (Parser Key)) (env : Env) (r : Request Seconds) (wait : Seconds)
      (max_bytes : Option ℤ) (cs : List Text) (s : S)
      → EndsSent cs s (execute_commands is_word net parsers env r wait max_bytes cs s)
  unfolding execute_commands
  execute_commands-EndsSent parsers env r wait max_bytes cs s =
      run_with_cap-EndsSent parsers r wait cs (output_cap env max_bytes) s

  -- Only texts with a property of the commands have been sent.
  abbrev pub SendsOnly : (Text → Type 0) → S → S → Type 0
  SendsOnly P s s' = (ts : List Text) × (v.sent s' ≡ v.sent s ++ ts) × All P ts

  pub EndsSent-SendsOnly :
      (P : Text → Type 0) (cs : List Text) (s : S) (out : Result Escape SessionResult × S)
      → All P cs
      → EndsSent cs s out
      → SendsOnly P s out.1
  EndsSent-SendsOnly P cs s (err e, s') h k = ([], nothing_sent s s' k, tt)
  EndsSent-SendsOnly P cs s (ok (done rs), s') h (ts, whole, are) =
      (ts, whole, AreSent-All P cs rs ts h are)
  EndsSent-SendsOnly P cs s (ok (failed_with t m c), s') h (ts, whole, none_sent) =
      (ts, whole, rw none_sent tt)
  EndsSent-SendsOnly P cs s (ok (invalid e), s') h (ts, whole, none_sent) =
      (ts, whole, rw none_sent tt)

  -- If the network keeps the list of the commands that are sent to a device, and execute_commands
  -- returns: a list of results has one for each command, in order, and the texts that were sent are
  -- the commands, each once and in order, but for those whose result is an error of the session,
  -- which may be missing; without such a list nothing was sent. And it says that the device is
  -- unreachable only if the probe did, and then nothing was done behind the probe.
  pub execute_commands-HasSent :
      (parsers : List (Parser Key)) (env : Env) (r : Request Seconds) (wait : Seconds)
      (max_bytes : Option ℤ) (cs : List Text) (s s' : S) (result : SessionResult)
      → execute_commands is_word net parsers env r wait max_bytes cs s ≡ (ok result, s')
      → HasSent cs s (result, s')
        × (IsUnreachable result
            → (m : Text) × (net.probe r.host r.port wait s ≡ (err (no_route m), s')))
  execute_commands-HasSent parsers env r wait max_bytes cs s s' result h = (
    subst (EndsSent cs s) h (execute_commands-EndsSent parsers env r wait max_bytes cs s),
    (execute_commands-IsReport is_word net parsers env r wait max_bytes cs s s' result h).1,
  )
