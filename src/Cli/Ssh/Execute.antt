-- ===== src/Cli/Ssh/Execute.antt =====
-- cli/ssh.py: one command's result, and the session as a whole.
use prisma_sdwan_mcp.Prelude.{
  if◌then◌else◌, length, ℕ, zero, suc, Bool, false, Option, none, some, List, [], ◌∷◌,
}
use prisma_sdwan_mcp.Prelude.Text.{Text}
use prisma_sdwan_mcp.Prelude.Int.{ℤ, pos, negsuc}
use prisma_sdwan_mcp.Prelude.Result.{Result, err, ok}
use prisma_sdwan_mcp.Cli.Ssh.Output.{
  Exception, Device, normalise_prompt, is_device_error, send_command_with_pagination,
}
use prisma_sdwan_mcp.Cli.Ssh.Session.{
  safe_error_message_details, is_authentication_error, is_connection_refused_by_device,
  is_host_key_error, Invalid, probe_value, Request, ConnectionKwargs, Parser,
  build_connection_kwargs,
}
use prisma_sdwan_mcp.Cli.Ssh.{encode, truncate_output}
use prisma_sdwan_mcp.Cli.Redact.{redact_text}
use prisma_sdwan_mcp.Config.{Env, ConfigError, get_ion_max_output_bytes}

-- What an entry of `results` says beside the command: an error of the session, which has no key
-- `truncated`, or what the device answered. `sizes` are the two keys for the bytes.
pub data Answer : Type 0 where
  session_error : (error : Text) (error_truncated : Bool) → Answer
  answered :
      (failed : Bool) (body : Text) (truncated redacted : Bool) (sizes : Option (ℕ × ℕ)) → Answer

pub record CommandResult : Type 0 where
  pub command : Text
  pub answer : Answer

pub data ErrorType : Type 0 where
  unreachable host_key authentication rate_limited connection validation : ErrorType

-- What `execute_commands` returns.
pub data SessionResult : Type 0 where
  done : List CommandResult → SessionResult
  failed_with : ErrorType → (message : Text) → (error_truncated : Bool) → SessionResult
  invalid : Invalid → SessionResult

-- What the probe raises: `IONUnreachableError`, a ValueError, or something else.
pub data ProbeError : Type 0 where
  no_route value_error : Text → ProbeError
  other_error : Exception → ProbeError

-- What leaves `execute_commands` as an exception.
pub data Escape : Type 0 where
  setting : ConfigError → Escape
  from_probe : Exception → Escape

-- Netmiko and the network, over a state of the world.
pub record Network (S Key Seconds : Type 0) : Type 0 where
  pub probe : Text → ℤ → Seconds → S → Result ProbeError (Unit {0}) × S
  pub connect : ConnectionKwargs Key Seconds → S → Result Exception (Device S) × S

-- The class of a failed connection.
unfoldable pub error_type_of : Exception → ErrorType
unfolding is_host_key_error is_authentication_error is_connection_refused_by_device
error_type_of e =
    if is_host_key_error e
    then host_key
    else if is_authentication_error e
    then authentication
    else if is_connection_refused_by_device e
    then rate_limited
    else connection

-- The prompt, with None where the device does not give it.
prompt_or_none : Result Exception Text → Option Text
unfolding normalise_prompt
prompt_or_none (ok raw) = normalise_prompt raw
prompt_or_none (err e) = none

-- `if max_output_bytes is None or max_output_bytes <= 0`
unfoldable pub output_cap : Env → Option ℤ → Result ConfigError ℕ
output_cap env none = get_ion_max_output_bytes env
output_cap env (some (negsuc n)) = get_ion_max_output_bytes env
output_cap env (some (pos zero)) = get_ion_max_output_bytes env
output_cap env (some (pos (suc n))) = ok (suc n)

module _ (is_word : ℕ → Bool) where
  -- What is made of an output that was read to completion.
  unfoldable pub answer_of : ℕ → Text → Option Text → Answer
  unfolding truncate_output is_device_error redact_text encode
  answer_of max_output_bytes output prompt =
      let t = truncate_output output max_output_bytes in
      let (body, redacted) = redact_text is_word t.kept in
      answered (is_device_error is_word t.kept prompt) body t.truncated redacted
        (if t.truncated then some (length (encode body), t.total_bytes) else none)

  module _ {S : Type 0} where
    unfoldable pub answer_then_prompt :
        Device S → ℕ → List (Option Text) → Result Exception Text × S → Answer × S
    unfolding answer_of prompt_or_none safe_error_message_details
    answer_then_prompt d max_output_bytes secrets (err e, s) =
        let (message, cut) = safe_error_message_details e secrets in (session_error message cut, s)
    answer_then_prompt d max_output_bytes secrets (ok output, s) =
        let (prompt, s') = d.find_prompt s in
        (answer_of max_output_bytes output (prompt_or_none prompt), s')

    -- `_command_result`
    unfoldable pub command_result : Device S → ℕ → List (Option Text) → Text → S → CommandResult × S
    unfolding answer_then_prompt send_command_with_pagination
    command_result d max_output_bytes secrets command s =
        let (answer, s') =
          answer_then_prompt d max_output_bytes secrets
            (send_command_with_pagination d command s) in
        (record { command = command; answer = answer }, s')

    -- The list of results: one command behind the other.
    unfoldable pub command_results :
        Device S → ℕ → List (Option Text) → List Text → S → List CommandResult × S
    unfolding command_result
    command_results d max_output_bytes secrets [] s = ([], s)
    command_results d max_output_bytes secrets (c ∷ cs) s =
        let (r, s1) = command_result d max_output_bytes secrets c s in
        let (rs, s2) = command_results d max_output_bytes secrets cs s1 in (r ∷ rs, s2)

    -- The session with what the connection attempt gave; `finally` closes an open one, whatever
    -- `disconnect` raises.
    unfoldable pub use_connection :
        ℕ → List (Option Text) → List Text → Result Exception (Device S) × S → SessionResult × S
    unfolding command_results error_type_of safe_error_message_details
    use_connection max_output_bytes secrets commands (err e, s) =
        let (message, cut) = safe_error_message_details e secrets in
        (failed_with (error_type_of e) message cut, s)
    use_connection max_output_bytes secrets commands (ok d, s) =
        let (rs, s1) = command_results d max_output_bytes secrets commands s in
        (done rs, (d.disconnect s1).1)

    module _ {Key Seconds : Type 0} (net : Network S Key Seconds) where
      unfoldable pub after_probe :
          ℕ
          → List (Option Text)
          → List Text
          → ConnectionKwargs Key Seconds
          → Result ProbeError (Unit {0}) × S
          → Result Escape SessionResult × S
      unfolding use_connection
      after_probe max_output_bytes secrets commands kwargs (err (no_route m), s) =
          (ok (failed_with unreachable m false), s)
      after_probe max_output_bytes secrets commands kwargs (err (value_error m), s) =
          (ok (invalid (probe_value m)), s)
      after_probe max_output_bytes secrets commands kwargs (err (other_error e), s) =
          (err (from_probe e), s)
      after_probe max_output_bytes secrets commands kwargs (ok ready, s) =
          let (r, s') = use_connection max_output_bytes secrets commands (net.connect kwargs s) in
          (ok r, s')

      unfoldable pub probe_and_run :
          Request Seconds
          → Seconds
          → ℕ
          → List Text
          → Result Invalid (ConnectionKwargs Key Seconds)
          → S
          → Result Escape SessionResult × S
      unfolding after_probe
      probe_and_run r probe_timeout max_output_bytes commands (err e) s = (ok (invalid e), s)
      probe_and_run r probe_timeout max_output_bytes commands (ok kwargs) s =
          after_probe max_output_bytes (r.password ∷ r.private_key ∷ r.private_key_passphrase ∷ [])
            commands kwargs (net.probe r.host r.port probe_timeout s)

      unfoldable pub run_with_cap :
          List (Parser Key)
          → Request Seconds
          → Seconds
          → List Text
          → Result ConfigError ℕ
          → S
          → Result Escape SessionResult × S
      unfolding probe_and_run build_connection_kwargs
      run_with_cap parsers r probe_timeout commands (err e) s = (err (setting e), s)
      run_with_cap parsers r probe_timeout commands (ok cap) s =
          probe_and_run r probe_timeout cap commands (build_connection_kwargs parsers r) s

      unfoldable pub execute_commands :
          List (Parser Key)
          → Env
          → Request Seconds
          → Seconds
          → Option ℤ
          → List Text
          → S
          → Result Escape SessionResult × S
      unfolding run_with_cap output_cap
      execute_commands parsers env r probe_timeout max_output_bytes commands s =
          run_with_cap parsers r probe_timeout commands (output_cap env max_output_bytes) s
