-- ===== src/Tools/Shape/Commands.antt =====
-- tools/cli.py: the shape of the replies of `run_commands`.
use prisma_sdwan_mcp.Prelude.Int.{pos}
use prisma_sdwan_mcp.Prelude.{length, ℕ, ◌≡◌, refl, subst, inr}
use prisma_sdwan_mcp.Prelude.Text.{Text, codes}
use prisma_sdwan_mcp.Prelude.Result.{Result, err, ok, returned_eq}
use prisma_sdwan_mcp.Errors.{Failure}
use prisma_sdwan_mcp.Value.{Value, null, int, list, Fields, end, field, nil, has}
use prisma_sdwan_mcp.Config.{Env}
use prisma_sdwan_mcp.Response.Shape.{IsReply, structured_error-IsError}
use prisma_sdwan_mcp.Response.Shape.Replies.{single_json-IsReply}
use prisma_sdwan_mcp.Cli.Reply.{
  Reply, policy_denied, not_configured, no_target, unresolved, session_failed, report, payload,
}
use prisma_sdwan_mcp.Cli.Run.{Call, Server, run_commands}
use prisma_sdwan_mcp.Cli.Rendered.{
  batch_reason_text, decisions_or_none, session_message, unset_credentials, missing_setting,
  report_summary, cap_field, failure_details, tool_name, from_reply, reply_object, sent,
  run_commands_json,
}
use prisma_sdwan_mcp.Cli.Ssh.Execute.{Escape}
use prisma_sdwan_mcp.Tools.{Toolbox}
use prisma_sdwan_mcp.Tools.Shape.{handle_error-IsError, apart}

sent_back : {r : Result Failure Fields} {fs : Fields} → from_reply r ≡ ok fs → r ≡ ok fs
unfolding from_reply
sent_back {r = err e} h = cc
sent_back {r = ok gs} h = cc

module _ (repr : Value → Text) (exception_text : Failure → Text) (env : Env) (now : Text) where
  reply_object-IsReply :
      (count : ℕ) (r : Reply) (fs : Fields)
      → reply_object repr exception_text env now count r ≡ ok fs
      → IsReply tool_name fs
  unfolding reply_object has cap_field
  reply_object-IsReply count (policy_denied d) fs h = subst (IsReply tool_name) (returned_eq h) (
      inr (
        structured_error-IsError (codes "policy_denied") (batch_reason_text d.reason) tool_name
          (int (pos 400)) (field "decisions" (decisions_or_none d.decisions) end)))
  reply_object-IsReply count not_configured fs h = subst (IsReply tool_name) (returned_eq h) (
      inr (
        structured_error-IsError (codes "configuration_error") unset_credentials tool_name
          (int (pos 400)) missing_setting))
  reply_object-IsReply count no_target fs h = subst (IsReply tool_name) (returned_eq h) (
      inr (
        structured_error-IsError (codes "invalid_argument") (codes "provide element or host")
          tool_name (int (pos 400)) end))
  reply_object-IsReply count (unresolved e) fs h =
      subst (IsReply tool_name) (returned_eq h)
        (inr (handle_error-IsError exception_text tool_name e (field "results" (list nil) end)))
  reply_object-IsReply count (session_failed code result device) fs h =
      subst (IsReply tool_name) (returned_eq h) (
        inr (
          structured_error-IsError (codes code) (session_message result) tool_name null
            (failure_details device)))
  reply_object-IsReply count (report host payload cap) fs h =
      single_json-IsReply repr env now tool_name (report_summary count host) "run" payload
        (cap_field cap) (apart refl refl refl refl) fs h

  sent-IsReply :
      {S : Type 0} (count : ℕ) (o : Result Escape Reply × S) (fs : Fields)
      → (sent repr exception_text env now count o).0 ≡ ok fs
      → IsReply tool_name fs
  unfolding sent
  sent-IsReply count (err e, s) fs h = cc
  sent-IsReply count (ok r, s) fs h = reply_object-IsReply count r fs (sent_back h)

  -- What run_commands returns is an answer or an error, in its name.
  run_commands_json-IsReply :
      {S Key : Type 0} (v : Server S Key) (call : Call) (s : S) (fs : Fields)
      → (run_commands_json repr exception_text env now v call s).0 ≡ ok fs
      → IsReply tool_name fs
  unfolding run_commands_json
  run_commands_json-IsReply v call s fs h =
      sent-IsReply (length call.commands) (run_commands v env call s) fs h

-- The tool of tools/cli.py, with the settings, the clock and the texts of the other tools.
abbrev pub CommandReplies : Toolbox → {S Key : Type 0} → Server S Key → Type 0
CommandReplies b {S = S} v =
    (call : Call) (s : S) (fs : Fields)
    → (run_commands_json b.repr b.text b.env b.now v call s).0 ≡ ok fs
    → IsReply tool_name fs

pub commands-IsReply : (b : Toolbox) {S Key : Type 0} (v : Server S Key) → CommandReplies b v
commands-IsReply b v = run_commands_json-IsReply b.repr b.text b.env b.now v
