-- ===== src/Cli/Reply.antt =====
-- tools/cli.py: what `run_commands` replies, as the content of the JSON text.
use prisma_sdwan_mcp.Prelude.{if◌then◌else◌, ℕ, String, true, Option, none, some, List, map}
use prisma_sdwan_mcp.Prelude.Text.{Text, codes}
use prisma_sdwan_mcp.Prelude.Int.{pos}
use prisma_sdwan_mcp.Errors.{Failure}
use prisma_sdwan_mcp.Value.{Value, null, bool, int, str, list, dict, Fields, end, field, of_items}
use prisma_sdwan_mcp.Safety.{Patterns, redact}
use prisma_sdwan_mcp.Cli.Policy.{BatchDecision}
use prisma_sdwan_mcp.Cli.Ssh.Execute.{
  Answer, session_error, answered, CommandResult, ErrorType, unreachable, host_key, authentication,
  rate_limited, connection, validation, SessionResult, done, failed_with, invalid,
}

-- The device that the session goes to. The four values from the controller are None for an address
-- that the caller gave.
pub record Target : Type 0 where
  pub host : Text
  pub port : ℕ
  pub element : Value
  pub element_id : Value
  pub site_id : Value
  pub interface_id : Value
  pub interface_name : Value

pub data Reply : Type 0 where
  policy_denied : BatchDecision → Reply
  not_configured : Reply
  no_target : Reply
  -- what `handle_error` is given
  unresolved : Failure → Reply
  -- the code, the error, and the host and port if the device was unreachable
  session_failed : (code : String) → SessionResult → Option (Text × ℕ) → Reply
  -- the host that was asked, in the summary
  report : (host : Text) → (payload : Value) → (per_command_cap : ℕ) → Reply

-- `_CONNECTION_ERROR_CODES`
unfoldable pub connection_error_code : ErrorType → String
connection_error_code unreachable = "device_unreachable"
connection_error_code host_key = "host_key_unverified"
connection_error_code authentication = "device_authentication_failed"
connection_error_code rate_limited = "rate_limited"
connection_error_code connection = "device_connection_failed"
connection_error_code validation = "invalid_argument"

unfoldable pub text_or_null : Option Text → Value
text_or_null none = null
text_or_null (some t) = str t

-- `result["truncated"] = ...` and the keys behind it.
answer_fields : Answer → Fields
unfolding codes
answer_fields (session_error error error_truncated) = field "status" (str (codes "error")) (
    field "error" (str error)
      (if error_truncated then field "error_truncated" (bool true) end else end))
answer_fields (answered failed body truncated hidden sizes) =
    let counts : Fields = elim sizes [
      | none ↦ end
      | some (kept, total) ↦
          field "output_bytes" (int (pos kept)) (field "output_bytes_total" (int (pos total)) end)
    ] in
    let rest =
      field "truncated" (bool truncated)
        (if hidden then field "redacted" (bool true) counts else counts) in
    if failed
    then field "status" (str (codes "error")) (field "error" (str body) rest)
    else field "status" (str (codes "ok")) (field "output" (str body) rest)

result_value : CommandResult → Value
unfolding answer_fields
result_value r = dict (field "command" (str r.command) (answer_fields r.answer))

unfoldable pub payload : Target → List CommandResult → Value
unfolding result_value
payload t rs = dict (
    field "target"
      (dict (
        field "host" (str t.host) (
          field "port" (int (pos t.port)) (
            field "element" t.element (
              field "element_id" t.element_id (
                field "site_id" t.site_id (
                  field "interface_id" t.interface_id
                    (field "interface_name" t.interface_name end))))))))
      (field "results" (list (of_items (map result_value rs))) end))

unfoldable pub reply_of : Patterns → Target → ℕ → SessionResult → Reply
unfolding payload connection_error_code redact
reply_of patterns t cap (done rs) = report t.host (redact patterns (payload t rs)) cap
reply_of patterns t cap (failed_with unreachable m c) =
    session_failed (connection_error_code unreachable) (failed_with unreachable m c)
      (some (t.host, t.port))
reply_of patterns t cap (failed_with e m c) =
    session_failed (connection_error_code e) (failed_with e m c) none
reply_of patterns t cap (invalid e) =
    session_failed (connection_error_code validation) (invalid e) none
