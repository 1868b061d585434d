-- ===== src/Cli/Ssh/Order.antt =====
-- cli/ssh.py: the connections that are open behind a session.
use prisma_sdwan_mcp.Prelude.{ℕ, suc, ◌-◌, ◌≡◌, refl, ◌∙◌, Bool, Option, List, [], ◌∷◌, arith}
use prisma_sdwan_mcp.Prelude.Text.{Text}
use prisma_sdwan_mcp.Prelude.Int.{ℤ}
use prisma_sdwan_mcp.Prelude.Result.{Result, err, ok}
use prisma_sdwan_mcp.Cli.Ssh.Output.{
  Exception, Device, max_pagination_pages, completion_prompt, send_command_with_pagination,
}
use prisma_sdwan_mcp.Config.{Env, ConfigError}
use prisma_sdwan_mcp.Cli.Ssh.Session.{
  Invalid, Request, ConnectionKwargs, Parser, build_connection_kwargs,
}
use prisma_sdwan_mcp.Cli.Ssh.Watched.{
  Quiet, Keeps, then_run-Keeps, completion_prompt-Keeps, pages-Keeps, answer_then_prompt-Keeps,
}
use prisma_sdwan_mcp.Cli.Ssh.Execute.{
  ProbeError, no_route, value_error, other_error, Network, output_cap, command_result,
  command_results, use_connection, after_probe, probe_and_run, run_with_cap, execute_commands,
}

-- A count of the open connections that a device's calls leave alone, up to the last one.
pub record Bracketed {S : Type 0} (opened : S → ℕ) (d : Device S) : Type 0 where
  pub on_find : (s : S) → opened (d.find_prompt s).1 ≡ opened s
  pub on_send : (c p : Text) (s : S) → opened (d.send_command c p s).1 ≡ opened s
  pub on_write : (t : Text) (s : S) → opened (d.write_channel t s).1 ≡ opened s
  pub on_read : (p : Text) (s : S) → opened (d.read_until p s).1 ≡ opened s
  pub on_disconnect : (s : S) → opened (d.disconnect s).1 ≡ opened s - 1

-- A network in which a connection that succeeds opens one session and one that fails opens none.
pub record Tracked {S Key Seconds : Type 0} (net : Network S Key Seconds) : Type 0 where
  pub opened : S → ℕ
  pub on_probe : (h : Text) (p : ℤ) (t : Seconds) (s : S) → opened (net.probe h p t s).1 ≡ opened s
  pub on_refused :
      (k : ConnectionKwargs Key Seconds) (s : S) (e : Exception)
      → (net.connect k s).0 ≡ err e
      → opened (net.connect k s).1 ≡ opened s
  pub on_open :
      (k : ConnectionKwargs Key Seconds) (s : S) (d : Device S)
      → (net.connect k s).0 ≡ ok d
      → (opened (net.connect k s).1 ≡ suc (opened s)) × Bracketed opened d

module _ {S : Type 0} (opened : S → ℕ) (d : Device S) (b : Bracketed opened d) where
  Bracketed-Quiet : Quiet opened d
  Bracketed-Quiet = record { on_find = b.on_find; on_write = b.on_write; on_read = b.on_read }

  send-Keeps : (command : Text) → Keeps opened (send_command_with_pagination d command)
  unfolding send_command_with_pagination
  send-Keeps command =
      then_run-Keeps opened (completion_prompt d) _
        (completion_prompt-Keeps opened d Bracketed-Quiet)
        (λ expect.
          then_run-Keeps opened (d.send_command command expect) _ (b.on_send command expect)
            (pages-Keeps opened d Bracketed-Quiet max_pagination_pages expect))

  command_results-Keeps :
      (is_word : ℕ → Bool) (cap : ℕ) (secrets : List (Option Text)) (cs : List Text) (s : S)
      → opened (command_results is_word d cap secrets cs s).1 ≡ opened s
  unfolding command_results command_result
  command_results-Keeps is_word cap secrets [] s = refl
  command_results-Keeps is_word cap secrets (c ∷ cs) s =
      command_results-Keeps is_word cap secrets cs (command_result is_word d cap secrets c s).1
      ∙ (answer_then_prompt-Keeps opened d Bracketed-Quiet is_word cap secrets
            (send_command_with_pagination d c s)
          ∙ send-Keeps c s)

module _ (is_word : ℕ → Bool) {S Key Seconds : Type 0} (net : Network S Key Seconds) where
  use_connection-opened :
      (t : Tracked net) (cap : ℕ) (secrets : List (Option Text)) (cs : List Text) (n : ℕ)
      (out : Result Exception (Device S) × S)
      → ((e : Exception) → out.0 ≡ err e → t.opened out.1 ≡ n)
      → ((d : Device S) → out.0 ≡ ok d → (t.opened out.1 ≡ suc n) × Bracketed t.opened d)
      → t.opened (use_connection is_word cap secrets cs out).1 ≡ n
  unfolding use_connection
  use_connection-opened t cap secrets cs n (err e, s) h k = h e refl
  use_connection-opened t cap secrets cs n (ok d, s) h k =
      let (one_more, b) = k d refl in
      let rest = command_results-Keeps t.opened d b is_word cap secrets cs s in
      let last = b.on_disconnect (command_results is_word d cap secrets cs s).1 in
      omega (arith, one_more, rest, last)

  after_probe-opened :
      (t : Tracked net) (cap : ℕ) (secrets : List (Option Text)) (cs : List Text)
      (k : ConnectionKwargs Key Seconds) (out : Result ProbeError (Unit {0}) × S)
      → t.opened (after_probe is_word net cap secrets cs k out).1 ≡ t.opened out.1
  unfolding after_probe
  after_probe-opened t cap secrets cs k (err (no_route m), s) = refl
  after_probe-opened t cap secrets cs k (err (value_error m), s) = refl
  after_probe-opened t cap secrets cs k (err (other_error e), s) = refl
  after_probe-opened t cap secrets cs k (ok ready, s) =
      use_connection-opened t cap secrets cs (t.opened s) (net.connect k s) (t.on_refused k s)
        (t.on_open k s)

  probe_and_run-opened :
      (t : Tracked net) (r : Request Seconds) (wait : Seconds) (cap : ℕ) (cs : List Text)
      (kwargs : Result Invalid (ConnectionKwargs Key Seconds)) (s : S)
      → t.opened (probe_and_run is_word net r wait cap cs kwargs s).1 ≡ t.opened s
  unfolding probe_and_run
  probe_and_run-opened t r wait cap cs (err e) s = refl
  probe_and_run-opened t r wait cap cs (ok k) s =
      after_probe-opened t cap (r.password ∷ r.private_key ∷ r.private_key_passphrase ∷ []) cs k
        (net.probe r.host r.port wait s)
      ∙ t.on_probe r.host r.port wait s

  run_with_cap-opened :
      (t : Tracked net) (parsers : List (Parser Key)) (r : Request Seconds) (wait : Seconds)
      (cs : List Text) (cap : Result ConfigError ℕ) (s : S)
      → t.opened (run_with_cap is_word net parsers r wait cs cap s).1 ≡ t.opened s
  unfolding run_with_cap
  run_with_cap-opened t parsers r wait cs (err e) s = refl
  run_with_cap-opened t parsers r wait cs (ok cap) s =
      probe_and_run-opened t r wait cap cs (build_connection_kwargs parsers r) s

  -- Whatever happens, as many connections are open after `execute_commands` as before, if a
  -- successful connect opens one, a disconnect closes one and no other call opens or closes any.
  pub execute_commands-opened :
      (t : Tracked net) (parsers : List (Parser Key)) (env : Env) (r : Request Seconds)
      (wait : Seconds) (max_bytes : Option ℤ) (cs : List Text) (s : S)
      → t.opened (execute_commands is_word net parsers env r wait max_bytes cs s).1 ≡ t.opened s
  unfolding execute_commands
  execute_commands-opened t parsers env r wait max_bytes cs s =
      run_with_cap-opened t parsers r wait cs (output_cap env max_bytes) s
