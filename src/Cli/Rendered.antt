-- ===== src/Cli/Rendered.antt =====
-- tools/cli.py: the JSON object that `run_commands` replies with, and the messages of cli/policy.py and
-- cli/ssh.py in it.
use prisma_sdwan_mcp.Prelude.{length, ℕ, Option, none, some, List, [], ◌∷◌, ◌++◌, map}
use prisma_sdwan_mcp.Prelude.Int.{pos}
use prisma_sdwan_mcp.Prelude.Text.{Text, codes}
use prisma_sdwan_mcp.Prelude.Result.{Result, err, ok}
use prisma_sdwan_mcp.Errors.{Failure}
use prisma_sdwan_mcp.Value.{
  Value, null, bool, int, str, list, dict, Fields, end, field, nil, of_items,
}
use prisma_sdwan_mcp.Config.{Env}
use prisma_sdwan_mcp.Response.{structured_error}
use prisma_sdwan_mcp.Response.Collection.{single_json}
use prisma_sdwan_mcp.Common.{handle_error}
use prisma_sdwan_mcp.Resolver.Records.{decimal}
use prisma_sdwan_mcp.Cli.Policy.{
  family_name, Reason, not_a_string, empty, surrounding_space, control_character, bad_port,
  no_match, matches, CommandDecision, BatchReason, not_a_list, no_commands, command_denied,
  all_approved, too_many,
}
use prisma_sdwan_mcp.Cli.Reply.{
  Reply, policy_denied, not_configured, no_target, unresolved, session_failed, report, payload,
}
use prisma_sdwan_mcp.Cli.Run.{Call, Server, run_commands}
use prisma_sdwan_mcp.Cli.Ssh.Session.{
  Invalid, host_and_username, port_range, one_credential, passphrase_without_key, not_pem,
  unparsable, probe_value,
}
use prisma_sdwan_mcp.Cli.Ssh.Execute.{SessionResult, done, failed_with, invalid, Escape}

-- The reason of a decision on a command.
unfoldable pub reason_text : Reason → Text
unfolding codes
reason_text not_a_string = codes "command must be a string"
reason_text empty = codes "command must not be empty"
reason_text surrounding_space = codes "leading or trailing whitespace is not allowed"
reason_text control_character = codes "control characters and newlines are not allowed"
reason_text bad_port = codes "port must be between 1 and 65535"
reason_text no_match =
    codes "command does not match any approved ION command form "
    ++ codes "(families: dump, inspect; exact forms: ping <interface> <host> "
    ++ codes "[args=\"-c 1..10\"]; tcpping <interface> <host>:<port>; "
    ++ codes "dig <interface> <dns-server> <hostname>)"
reason_text (matches f) =
    codes "matches approved ION command form '" ++ codes (family_name f) ++ codes "'"

-- The reason of the decision on the batch.
unfoldable pub batch_reason_text : BatchReason → Text
unfolding codes decimal
batch_reason_text not_a_list = codes "commands must be a list of strings"
batch_reason_text no_commands = codes "commands must contain at least one command"
batch_reason_text command_denied =
    codes "batch rejected because one or more commands failed the read-only policy"
batch_reason_text all_approved = codes "all commands matched an approved ION command form"
batch_reason_text (too_many count limit) =
    codes "batch of " ++ decimal count ++ codes " commands exceeds the maximum of " ++ decimal limit

-- The message of the ValueError of a request that is not well-formed.
unfoldable pub invalid_text : Invalid → Text
unfolding codes
invalid_text host_and_username = codes "host and username are required"
invalid_text port_range = codes "port must be between 1 and 65535"
invalid_text one_credential = codes "exactly one of password or private_key is required"
invalid_text passphrase_without_key = codes "private_key_passphrase requires private_key"
invalid_text not_pem = codes "private_key must contain inline PEM key material"
invalid_text unparsable = codes "private_key could not be parsed"
invalid_text (probe_value message) = message

unfoldable pub decision_value : CommandDecision → Value
unfolding reason_text
decision_value d = dict (
    field "command" (str d.command)
      (field "allowed" (bool d.allowed) (field "reason" (str (reason_text d.reason)) end)))

-- `[...] or None`
unfoldable pub decisions_or_none : List CommandDecision → Value
unfolding decision_value
decisions_or_none [] = null
decisions_or_none (d ∷ ds) = list (of_items (map decision_value (d ∷ ds)))

-- `result["error"]["message"]`
unfoldable pub session_message : SessionResult → Text
unfolding invalid_text
session_message (failed_with e message cut) = message
session_message (invalid e) = invalid_text e
session_message (done rs) = []

unfoldable pub unset_credentials : Text
unfolding codes
unset_credentials =
    codes "ION SSH credentials are not configured: set ION_USERNAME and exactly one of "
    ++ codes "ION_PASSWORD or ION_PRIVATE_KEY"

unfoldable pub missing_setting : Fields
unfolding codes
missing_setting =
    field "missing_setting" (str (codes "ION_USERNAME/ION_PASSWORD/ION_PRIVATE_KEY"))
      (field "results" (list nil) end)

unfoldable pub report_summary : ℕ → Text → Text
unfolding codes decimal
report_summary count host =
    codes "Ran " ++ decimal count ++ codes " command(s) on '" ++ host ++ codes "'"

unfoldable pub cap_field : ℕ → Fields
cap_field cap = field "per_command_output_cap_bytes" (int (pos cap)) end

-- `{"results": []}`, with the host and the port of a device that cannot be reached.
unfoldable pub failure_details : Option (Text × ℕ) → Fields
failure_details none = field "results" (list nil) end
failure_details (some (host, port)) =
    field "results" (list nil) (field "host" (str host) (field "port" (int (pos port)) end))

unfoldable pub tool_name : Text
unfolding codes
tool_name = codes "run_commands"

-- What leaves the tool as an exception: that of the session's steps, or that of making the reply.
pub data Uncaught : Type 0 where
  in_session : Escape → Uncaught
  in_reply : Failure → Uncaught

unfoldable pub from_reply : Result Failure Fields → Result Uncaught Fields
from_reply (err e) = err (in_reply e)
from_reply (ok fs) = ok fs

module _ (repr : Value → Text) (exception_text : Failure → Text) (env : Env) (now : Text) where
  -- The object that is returned for a batch of `count` commands.
  unfoldable pub reply_object : ℕ → Reply → Result Failure Fields
  unfolding codes tool_name batch_reason_text decisions_or_none session_message failure_details
      unset_credentials missing_setting report_summary cap_field structured_error handle_error
      single_json
  reply_object count (policy_denied d) = ok (
      structured_error (codes "policy_denied") (batch_reason_text d.reason) tool_name
        (int (pos 400)) (field "decisions" (decisions_or_none d.decisions) end))
  reply_object count not_configured = ok (
      structured_error (codes "configuration_error") unset_credentials tool_name (int (pos 400))
        missing_setting)
  reply_object count no_target = ok (
      structured_error (codes "invalid_argument") (codes "provide element or host") tool_name
        (int (pos 400)) end)
  reply_object count (unresolved e) =
      ok (handle_error exception_text tool_name e (field "results" (list nil) end))
  reply_object count (session_failed code result device) = ok (
      structured_error (codes code) (session_message result) tool_name null
        (failure_details device))
  reply_object count (report host payload cap) =
      single_json repr env now tool_name (report_summary count host) "run" payload (cap_field cap)

  unfoldable pub sent : {S : Type 0} → ℕ → Result Escape Reply × S → Result Uncaught Fields × S
  unfolding reply_object from_reply
  sent count (err e, s) = (err (in_session e), s)
  sent count (ok r, s) = (from_reply (reply_object count r), s)

  -- The tool: what it returns to its caller, and the state of the world.
  unfoldable pub run_commands_json :
      {S Key : Type 0} → Server S Key → Call → S → Result Uncaught Fields × S
  unfolding sent run_commands
  run_commands_json v call s = sent (length call.commands) (run_commands v env call s)
