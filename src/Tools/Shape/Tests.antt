-- ===== src/Tools/Shape/Tests.antt =====
-- The replies of a tool of each group, with a controller that is overloaded.
use prisma_sdwan_mcp.Prelude.{String, ◌≡◌, refl, false, Option, none, some, []}
use prisma_sdwan_mcp.Prelude.Int.{pos}
use prisma_sdwan_mcp.Prelude.Text.{codes}
use prisma_sdwan_mcp.Prelude.Result.{Result, err, ok}
use prisma_sdwan_mcp.Value.{Value, int, str, dict, Fields, end, field, get}
use prisma_sdwan_mcp.Response.{own_fields, add_details, structured_error}
use prisma_sdwan_mcp.Response.Shape.{IsReply}
use prisma_sdwan_mcp.Common.{is_429, upstream_error, fail_from_upstream}
use prisma_sdwan_mcp.Tools.{Toolbox, continue, ◌>>=◌, execute, try_tool}
use prisma_sdwan_mcp.Tools.Tests.{box, first_page, registry_of_two}
use prisma_sdwan_mcp.Tools.Replies.{unless_failed}
use prisma_sdwan_mcp.Tools.Core.Inventory.{sites, get_inventory}
use prisma_sdwan_mcp.Tools.Monitoring.Window.{Calendar}
use prisma_sdwan_mcp.Cli.Run.Tests.{run, server, reboot_at_host}
use prisma_sdwan_mcp.Tools.Shape.Every.{tools-IsReply}
use prisma_sdwan_mcp.Cli.Rendered.{Uncaught, run_commands_json}

-- The controller answers every call with the error of a client that gave up.
abbrev busy : Toolbox
busy = record box {
  answer = λ log c.
      ok (dict (field "error" (str (codes "busy")) (field "status_code" (int (pos 429)) end)));
}

abbrev no_calendar : Calendar
no_calendar = record { from_iso = λ s. none; format = λ n. []; present = 0 }

tools-IsReply_example :
    IsReply (codes "get_inventory") (get_inventory busy sites none false first_page []).0
tools-IsReply_example =
    (tools-IsReply busy registry_of_two no_calendar (λ t. pos 0) (λ fs. none) (λ fs. []) server).1.0
      sites none false first_page []

-- The error's code and message, in that reply.
busy_inventory :
    get "code" (get_inventory busy sites none false first_page []).0
    ≡ some (str (codes "rate_limited"))
unfolding get_inventory try_tool execute ◌>>=◌ continue unless_failed fail_from_upstream
    upstream_error structured_error own_fields add_details get codes is_429
busy_inventory = refl

entry : String → Result Uncaught Fields → Option Value
unfolding get
entry key (err e) = none
entry key (ok fs) = get key fs

-- The reply for a command that the policy denies.
abbrev denied_reply : Result Uncaught Fields
denied_reply = (run_commands_json box.repr box.text box.env box.now server reboot_at_host 0).0

denied_code : entry "code" denied_reply ≡ some (str (codes "policy_denied"))
unfolding entry run_commands_json run structured_error own_fields add_details
denied_code = refl

denied_tool : entry "tool" denied_reply ≡ some (str (codes "run_commands"))
unfolding entry run_commands_json run structured_error own_fields add_details
denied_tool = refl
