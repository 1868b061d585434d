-- ===== src/Cli/Run/Tests.antt =====
-- The tool on a server with one device, and its theorems at calls of it.
use prisma_sdwan_mcp.Cli.Run.Sessions.{run_commands-opened}
use prisma_sdwan_mcp.Cli.Ssh.Tests.{recording, answering, tracked, ascii_letter}
use prisma_sdwan_mcp.Prelude.{
  List, if◌then◌else◌, ℕ, ◌*◌, ◌≤◌, max, ◌≡◌, refl, false, ◌||◌, none, some, [], ◌∷◌, str_eq,
}
use prisma_sdwan_mcp.Prelude.Text.{
  Text, codes, in_range, is_space, is_digit, is_alnum, text_eq, starts_with, contains, strip,
}
use prisma_sdwan_mcp.Prelude.Result.{ok}
use prisma_sdwan_mcp.Value.{Value}
use prisma_sdwan_mcp.Config.{
  Env, int_env, get_max_response_bytes, is_set, pick, unset, first_set, get_ion_credentials,
  get_ion_known_hosts, get_ion_ssh_port, get_ion_probe_timeout, get_ion_connect_timeout,
  get_ion_read_timeout, get_ion_max_output_bytes, get_ion_max_commands,
}
use prisma_sdwan_mcp.Re.{ends, fullmatch, match, search_in, replace_all, fold_case, ignore_case}
use prisma_sdwan_mcp.Safety.{redact}
use prisma_sdwan_mcp.Resolver.{given}
use prisma_sdwan_mcp.Cli.Policy.{
  one_of, safe_char, grep_char, grep_flag, pattern_of, text, validate_command, validate_batch,
}
use prisma_sdwan_mcp.Cli.Redact.{redact_text}
use prisma_sdwan_mcp.Cli.Address.Tests.{one_element}
use prisma_sdwan_mcp.Cli.Reply.{Reply, report, payload, reply_of}
use prisma_sdwan_mcp.Cli.Ssh.{encode, truncate_output}
use prisma_sdwan_mcp.Cli.Ssh.Output.{
  normalise_prompt, splitlines, device_error, is_device_error, has_pagination_marker,
  completion_prompt, next_page, pages, send_command_with_pagination,
}
use prisma_sdwan_mcp.Cli.Ssh.Session.{
  port_in_range, load_private_key, credential_of, kwargs_with, build_connection_kwargs,
}
use prisma_sdwan_mcp.Cli.Ssh.Execute.{
  answered, output_cap, answer_of, answer_then_prompt, command_result, command_results,
  use_connection, after_probe, probe_and_run, run_with_cap, execute_commands,
}
use prisma_sdwan_mcp.Cli.Run.{
  Call, configured_credentials, per_command_cap, read_settings, command_text, Server, request_for,
  session_reply, with_settings, at_target, at_address, given_host, choose_target, with_credentials,
  decided, run_commands,
}
use prisma_sdwan_mcp.Cli.Run.Order.{IsRefusal, MayGoOn, run_commands-IsRefusal}
use prisma_sdwan_mcp.Cli.Run.Report.{IsReported, run_commands-IsReported}
use prisma_sdwan_mcp.Cli.Run.Cap.{per_command_cap_bounds}

unfoldable pub run : Unit {0}
unfolding run_commands decided with_credentials choose_target at_target at_address given_host
    with_settings session_reply reply_of read_settings per_command_cap request_for command_text
    configured_credentials get_ion_credentials first_set unset is_set pick int_env given
    get_ion_known_hosts get_ion_ssh_port get_ion_max_commands get_ion_max_output_bytes
    get_max_response_bytes get_ion_connect_timeout get_ion_read_timeout get_ion_probe_timeout
    execute_commands run_with_cap output_cap probe_and_run after_probe use_connection
    command_results command_result answer_then_prompt answer_of send_command_with_pagination
    completion_prompt pages next_page normalise_prompt is_device_error has_pagination_marker
    replace_all match search_in ends ignore_case fold_case codes strip is_space in_range is_digit
    is_alnum truncate_output encode redact_text build_connection_kwargs credential_of port_in_range
    kwargs_with load_private_key splitlines device_error contains starts_with text_eq validate_batch
    validate_command pattern_of fullmatch safe_char grep_char grep_flag one_of
run = tt

abbrev pub server : Server ℕ ℕ
server = record {
  services = λ n. one_element;
  after_resolution = λ e s n. n;
  net = answering;
  parsers = [];
  patterns = [];
  expand = λ t. t;
  is_word = ascii_letter;
}

abbrev pub configured_env : Env
configured_env name =
    if str_eq name "ION_USERNAME" || str_eq name "ION_PASSWORD" then some (b'u' ∷ []) else none

abbrev dump_at_host : Call
dump_at_host = record {
  commands = text (codes "dump up") ∷ [];
  element = none;
  host = some (b'h' ∷ []);
  site = none;
}

abbrev pub reboot_at_host : Call
reboot_at_host = record {
  commands = text (codes "reboot") ∷ [];
  element = none;
  host = some (b'h' ∷ []);
  site = none;
}

limit_is_ten : get_ion_max_commands configured_env ≡ ok 10
unfolding run
limit_is_ten = refl

reboot_denied : ¬ MayGoOn configured_env 10 (text (codes "reboot") ∷ [])
unfolding run
reboot_denied ((a, b, (h, t)), c) = cc

run_commands-IsRefusal_example :
    (reply : Reply) × (run_commands server configured_env reboot_at_host 0 ≡ (ok reply, 0))
    × IsRefusal reply
run_commands-IsRefusal_example =
    run_commands-IsRefusal server configured_env reboot_at_host 10 0 limit_is_ten reboot_denied

abbrev dump_report : Value
dump_report = redact [] (
    payload (given_host server configured_env dump_at_host (b'h' ∷ []) 22) (
      record {
        command = codes "dump up";
        answer = answered false (codes "up down") false false none;
      }
      ∷ []))

dump_reported :
    run_commands server configured_env dump_at_host 0
    ≡ (ok (report (b'h' ∷ []) dump_report 40960), 0)
unfolding run
dump_reported = refl

run_commands-IsReported_example : IsReported server configured_env dump_at_host 0 dump_report
run_commands-IsReported_example =
    run_commands-IsReported server configured_env dump_at_host 0 0 (b'h' ∷ []) dump_report 40960
      dump_reported

per_command_cap_bounds_test :
    (1024 ≤ per_command_cap 40960 65536 3)
    × (per_command_cap 40960 65536 3 ≤ max 1024 40960)
    × (3 * per_command_cap 40960 65536 3 ≤ max (3 * 1024) 65536)
per_command_cap_bounds_test = per_command_cap_bounds 40960 65536 3

run_commands-opened_example : (run_commands server configured_env dump_at_host 0).1 ≡ 0
run_commands-opened_example =
    run_commands-opened server configured_env tracked (λ e site s. refl) dump_at_host 0

-- The same server in a world that is the list of the texts that were sent.
abbrev recording_server : Server (List Text) ℕ
recording_server = record {
  services = λ ts. one_element;
  after_resolution = λ e s ts. ts;
  net = recording;
  parsers = [];
  patterns = [];
  expand = λ t. t;
  is_word = ascii_letter;
}

-- In that call the command itself was sent.
dump_sent : (run_commands recording_server configured_env dump_at_host []).1 ≡ codes "dump up" ∷ []
unfolding run
dump_sent = refl
