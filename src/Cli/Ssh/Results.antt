-- ===== src/Cli/Ssh/Results.antt =====
-- cli/ssh.py: the results and the errors of a session.
use prisma_sdwan_mcp.Prelude.Int.{ℤ}
use prisma_sdwan_mcp.Prelude.{
  Bool-cases, ℕ, ◌≡◌, refl, ap, inl, inr, Bool, false, Option, List, [], ◌∷◌, map,
}
use prisma_sdwan_mcp.Prelude.Text.{Text}
use prisma_sdwan_mcp.Prelude.Result.{Result, err, ok}
use prisma_sdwan_mcp.Cli.Ssh.Output.{Exception, Device}
use prisma_sdwan_mcp.Cli.Ssh.Session.{
  is_authentication_error, is_connection_refused_by_device, is_host_key_error, Invalid, probe_value,
  Request, ConnectionKwargs, Parser, build_connection_kwargs,
}
use prisma_sdwan_mcp.Config.{Env, ConfigError}
use prisma_sdwan_mcp.Cli.Ssh.Execute.{
  unreachable, SessionResult, done, failed_with, invalid, ProbeError, no_route, value_error,
  other_error, Network, error_type_of, output_cap, command_result, command_results, use_connection,
  after_probe, probe_and_run, run_with_cap, execute_commands,
}

abbrev pub Answers : List Text → SessionResult → Type 0
Answers cs (done rs) = map (λ r. r.command) rs ≡ cs
Answers cs (failed_with t m c) = Unit
Answers cs (invalid e) = Unit

abbrev pub IsUnreachable : SessionResult → Type 0
IsUnreachable (failed_with unreachable m c) = Unit
IsUnreachable _ = ⊥

error_type_of-reachable :
    (e : Exception) (m : Text) (c : Bool) → ¬ IsUnreachable (failed_with (error_type_of e) m c)
unfolding error_type_of
error_type_of-reachable e m c = elim (Bool-cases (is_host_key_error e)) [
  | inl h ↦ rw h (λ x. x)
  | inr h ↦ elim (Bool-cases (is_authentication_error e)) [
    | inl a ↦ rw (h, a) (λ x. x)
    | inr a ↦ elim (Bool-cases (is_connection_refused_by_device e)) [
      | inl b ↦ rw (h, a, b) (λ x. x)
      | inr b ↦ rw (h, a, b) (λ x. x)
    ]
  ]
]

module _ (is_word : ℕ → Bool) {S : Type 0} where
  command_results-commands :
      (d : Device S) (cap : ℕ) (secrets : List (Option Text)) (cs : List Text) (s : S)
      → map (λ r. r.command) (command_results is_word d cap secrets cs s).0 ≡ cs
  unfolding command_results command_result
  command_results-commands d cap secrets [] s = refl
  command_results-commands d cap secrets (c ∷ cs) s =
      ap (λ l. c ∷ l)
        (command_results-commands d cap secrets cs (command_result is_word d cap secrets c s).1)

  use_connection-Answers :
      (cap : ℕ) (secrets : List (Option Text)) (cs : List Text)
      (out : Result Exception (Device S) × S)
      → Answers cs (use_connection is_word cap secrets cs out).0
        × ¬ IsUnreachable (use_connection is_word cap secrets cs out).0
  unfolding use_connection
  use_connection-Answers cap secrets cs (err e, s) = (tt, error_type_of-reachable e _ _)
  use_connection-Answers cap secrets cs (ok d, s) =
      (command_results-commands d cap secrets cs s, λ x. x)

-- The result of a session that was asked for `cs`, where `p` is what the probe gave.
abbrev pub IsReport :
    {S : Type 0} → List Text → Result ProbeError (Unit {0}) × S → SessionResult → S → Type 0
IsReport cs p result s =
    Answers cs result × (IsUnreachable result → (m : Text) × (p ≡ (err (no_route m), s)))

module _ (is_word : ℕ → Bool) {S Key Seconds : Type 0} (net : Network S Key Seconds) where
  after_probe-IsReport :
      (cap : ℕ) (secrets : List (Option Text)) (cs : List Text) (k : ConnectionKwargs Key Seconds)
      (p : Result ProbeError (Unit {0}) × S) (result : SessionResult) (s : S)
      → after_probe is_word net cap secrets cs k p ≡ (ok result, s)
      → IsReport cs p result s
  unfolding after_probe
  after_probe-IsReport cap secrets cs k (err (no_route m), s) result s' h =
      let r : failed_with unreachable m false ≡ result = cc in
      let q : s ≡ s' = cc in rw (← r, ← q) (tt, λ x. (m, refl))
  after_probe-IsReport cap secrets cs k (err (value_error m), s) result s' h =
      let r : invalid (probe_value m) ≡ result = cc in rw (← r) (tt, λ x. absurd x)
  after_probe-IsReport cap secrets cs k (err (other_error e), s) result s' h = cc
  after_probe-IsReport cap secrets cs k (ok ready, s) result s' h =
      let (a, b) = use_connection-Answers is_word cap secrets cs (net.connect k s) in
      let r : (use_connection is_word cap secrets cs (net.connect k s)).0 ≡ result = cc in
      rw (← r) (a, λ x. absurd (b x))

  probe_and_run-IsReport :
      (r : Request Seconds) (wait : Seconds) (cap : ℕ) (cs : List Text)
      (kwargs : Result Invalid (ConnectionKwargs Key Seconds)) (s : S) (result : SessionResult)
      (s' : S)
      → probe_and_run is_word net r wait cap cs kwargs s ≡ (ok result, s')
      → IsReport cs (net.probe r.host r.port wait s) result s'
  unfolding probe_and_run
  probe_and_run-IsReport r wait cap cs (err e) s result s' h =
      let q : invalid e ≡ result = cc in rw (← q) (tt, λ x. absurd x)
  probe_and_run-IsReport r wait cap cs (ok k) s result s' h =
      after_probe-IsReport cap (r.password ∷ r.private_key ∷ r.private_key_passphrase ∷ []) cs k
        (net.probe r.host r.port wait s) result s' h

  run_with_cap-IsReport :
      (parsers : List (Parser Key)) (r : Request Seconds) (wait : Seconds) (cs : List Text)
      (cap : Result ConfigError ℕ) (s : S) (result : SessionResult) (s' : S)
      → run_with_cap is_word net parsers r wait cs cap s ≡ (ok result, s')
      → IsReport cs (net.probe r.host r.port wait s) result s'
  unfolding run_with_cap
  run_with_cap-IsReport parsers r wait cs (err e) s result s' h = cc
  run_with_cap-IsReport parsers r wait cs (ok cap) s result s' h =
      probe_and_run-IsReport r wait cap cs (build_connection_kwargs parsers r) s result s' h

  -- If `execute_commands` returns, the results it lists are those of the commands, in their order;
  -- and it says that the device is unreachable only if the probe did, and then nothing was done
  -- behind the probe.
  pub execute_commands-IsReport :
      (parsers : List (Parser Key)) (env : Env) (r : Request Seconds) (wait : Seconds)
      (max_bytes : Option ℤ) (cs : List Text) (s s' : S) (result : SessionResult)
      → execute_commands is_word net parsers env r wait max_bytes cs s ≡ (ok result, s')
      → IsReport cs (net.probe r.host r.port wait s) result s'
  unfolding execute_commands
  execute_commands-IsReport parsers env r wait max_bytes cs s s' result h =
      run_with_cap-IsReport parsers r wait cs (output_cap env max_bytes) s result s' h
