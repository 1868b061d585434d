-- ===== src/Cli/Ssh/Tests.antt =====
-- A device that answers in two pages, and the session's theorems at it. The state of this world is
-- the number of open connections.
use prisma_sdwan_mcp.Cli.Ssh.Verdict.{is_skipped, is_device_error-first}
use prisma_sdwan_mcp.Config.{Env}
use prisma_sdwan_mcp.Cli.Ssh.Sent.{Recorded, Records, HasSent, execute_commands-HasSent}
use prisma_sdwan_mcp.Cli.Ssh.Results.{IsUnreachable, IsReport, execute_commands-IsReport}
use prisma_sdwan_mcp.Cli.Ssh.Credentials.{IsStrict, build_connection_kwargs-IsStrict}
use prisma_sdwan_mcp.Cli.Ssh.Truncate.{IsHead, truncate_output-IsHead}
use prisma_sdwan_mcp.Re.{ends, match, search_in, replace_all, fold_case, ignore_case}
use prisma_sdwan_mcp.Prelude.Int.{pos}
use prisma_sdwan_mcp.Prelude.{
  leb, ℕ, suc, ◌+◌, ◌-◌, ◌≡◌, refl, Bool, true, false, ◌&&◌, none, some, List, [], ◌∷◌, ◌++◌, arith,
}
use prisma_sdwan_mcp.Prelude.Result.{err, ok}
use prisma_sdwan_mcp.Prelude.Text.{
  Text, codes, in_range, is_space, text_eq, starts_with, contains, strip,
}
use prisma_sdwan_mcp.Cli.Redact.{redact_text}
use prisma_sdwan_mcp.Cli.Ssh.{encode, truncate_output}
use prisma_sdwan_mcp.Cli.Ssh.Output.{
  Exception, Device, normalise_prompt, splitlines, device_error, is_device_error,
  has_pagination_marker, completion_prompt, next_page, pages, send_command_with_pagination,
}
use prisma_sdwan_mcp.Cli.Ssh.Paging.{send_command_with_pagination-unmarked}
use prisma_sdwan_mcp.Cli.Ssh.Session.{
  Request, with_password, ConnectionKwargs, port_in_range, Parser, load_private_key, credential_of,
  kwargs_with, build_connection_kwargs,
}
use prisma_sdwan_mcp.Cli.Ssh.Execute.{
  answered, SessionResult, done, no_route, Network, output_cap, answer_of, answer_then_prompt,
  command_result, command_results, use_connection, after_probe, probe_and_run, run_with_cap,
  execute_commands,
}
use prisma_sdwan_mcp.Cli.Ssh.Order.{Bracketed, Tracked, execute_commands-opened}

session : Unit {0}
unfolding execute_commands run_with_cap output_cap probe_and_run after_probe use_connection
    command_results command_result answer_then_prompt answer_of send_command_with_pagination
    completion_prompt pages next_page normalise_prompt is_device_error has_pagination_marker
    replace_all match search_in ends ignore_case fold_case codes strip is_space in_range
    truncate_output encode redact_text build_connection_kwargs credential_of port_in_range
    kwargs_with load_private_key splitlines device_error contains starts_with text_eq
session = tt

abbrev two_pages : Device ℕ
two_pages = record {
  find_prompt = λ n. (ok (codes "ion#  "), n);
  send_command = λ c p n. (ok (codes "up --More--"), n);
  write_channel = λ t n. (ok tt, n);
  read_until = λ p n. (ok (codes "down"), n);
  disconnect = λ n. (ok tt, n - 1);
}

both_pages : send_command_with_pagination two_pages (codes "dump") 0 ≡ (ok (codes "up down"), 0)
unfolding session
both_pages = refl

send_command_with_pagination-unmarked_test : has_pagination_marker (codes "up down") ≡ false
send_command_with_pagination-unmarked_test =
    send_command_with_pagination-unmarked two_pages (codes "dump") (codes "up down") 0 0 both_pages

abbrev pub answering : Network ℕ ℕ ℕ
answering = record { probe = λ h p t n. (ok tt, n); connect = λ k n. (ok two_pages, n + 1) }

two_pages-Bracketed : Bracketed (λ n. n) two_pages
two_pages-Bracketed = record {
  on_find = λ s. refl;
  on_send = λ c p s. refl;
  on_write = λ t s. refl;
  on_read = λ p s. refl;
  on_disconnect = λ s. refl;
}

pub never_refused :
    (k : ConnectionKwargs ℕ ℕ) (s : ℕ) (e : Exception)
    → (answering.connect k s).0 ≡ err e
    → (answering.connect k s).1 ≡ s
never_refused k s e h = cc

pub opens_one :
    (k : ConnectionKwargs ℕ ℕ) (s : ℕ) (d : Device ℕ)
    → (answering.connect k s).0 ≡ ok d
    → ((answering.connect k s).1 ≡ suc s) × Bracketed (λ n. n) d
opens_one k s d h = let same : two_pages ≡ d = cc in (omega arith, rw (← same) two_pages-Bracketed)

abbrev pub tracked : Tracked answering
tracked = record {
  opened = λ n. n;
  on_probe = λ h p t s. refl;
  on_refused = never_refused;
  on_open = opens_one;
}

abbrev asked : Request ℕ
asked = record {
  host = b'h' ∷ [];
  port = pos 22;
  username = b'u' ∷ [];
  password = some (b'p' ∷ []);
  private_key = none;
  private_key_passphrase = none;
  connect_timeout = 10;
  read_timeout = 300;
  known_hosts_file = none;
}

abbrev pub ascii_letter : ℕ → Bool
ascii_letter c = leb 97 c && leb c 122

abbrev pub unset_env : Env
unset_env name = none

execute_commands-opened_example :
    (execute_commands ascii_letter answering [] unset_env asked 3
      (some (pos 100))
      (codes "dump" ∷ [])
      0).1
    ≡ 0
execute_commands-opened_example =
    execute_commands-opened ascii_letter answering tracked [] unset_env asked 3 (some (pos 100))
      (codes "dump" ∷ []) 0

abbrev result_of_dump : SessionResult
result_of_dump = done (
    record { command = codes "dump"; answer = answered false (codes "up down") false false none }
    ∷ [])

dump_answered :
    execute_commands ascii_letter answering [] unset_env asked 3
      (some (pos 100))
      (codes "dump" ∷ [])
      0
    ≡ (ok result_of_dump, 0)
unfolding session
dump_answered = refl

execute_commands-IsReport_test :
    IsReport (codes "dump" ∷ []) (answering.probe asked.host asked.port 3 0) result_of_dump 0
execute_commands-IsReport_test =
    execute_commands-IsReport ascii_letter answering [] unset_env asked 3 (some (pos 100))
      (codes "dump" ∷ []) 0 0 result_of_dump dump_answered

-- The same device, in a world that is the list of the commands that were sent.
abbrev recorder : Device (List Text)
recorder = record {
  find_prompt = λ ts. (ok (codes "ion#  "), ts);
  send_command = λ c p ts. (ok (codes "up --More--"), ts ++ c ∷ []);
  write_channel = λ t ts. (ok tt, ts);
  read_until = λ p ts. (ok (codes "down"), ts);
  disconnect = λ ts. (ok tt, ts);
}

abbrev pub recording : Network (List Text) ℕ ℕ
recording = record { probe = λ h p t ts. (ok tt, ts); connect = λ k ts. (ok recorder, ts) }

recorder-Recorded : Recorded (λ ts. ts) recorder
recorder-Recorded = record {
  quiet = record { on_find = λ s. refl; on_write = λ t s. refl; on_read = λ p s. refl };
  on_send = λ c p s. refl;
  on_disconnect = λ s. refl;
}

pub opens_recorder :
    (k : ConnectionKwargs ℕ ℕ) (s : List Text) (d : Device (List Text))
    → (recording.connect k s).0 ≡ ok d
    → Recorded (λ ts. ts) d
opens_recorder k s d h = let same : recorder ≡ d = cc in rw (← same) recorder-Recorded

abbrev pub records_sent : Records recording
records_sent = record {
  sent = λ ts. ts;
  on_probe = λ h p t s. refl;
  on_connect = λ k s. refl;
  on_open = opens_recorder;
}

dump_recorded :
    execute_commands ascii_letter recording [] unset_env asked 3
      (some (pos 100))
      (codes "dump" ∷ [])
      []
    ≡ (ok result_of_dump, codes "dump" ∷ [])
unfolding session
dump_recorded = refl

execute_commands-HasSent_example :
    HasSent ascii_letter recording records_sent
      (codes "dump" ∷ [])
      []
      (result_of_dump, codes "dump" ∷ [])
    × (IsUnreachable result_of_dump
        → (m : Text) × (recording.probe asked.host asked.port 3 []
            ≡ (err (no_route m), codes "dump" ∷ [])))
execute_commands-HasSent_example =
    execute_commands-HasSent ascii_letter recording records_sent [] unset_env asked 3
      (some (pos 100)) (codes "dump" ∷ []) [] (codes "dump" ∷ []) result_of_dump dump_recorded

abbrev no_parsers : List (Parser ℕ)
no_parsers = []

built :
    build_connection_kwargs no_parsers asked ≡ ok (kwargs_with asked (with_password (b'p' ∷ [])))
unfolding session
built = refl

build_connection_kwargs-IsStrict_example :
    IsStrict no_parsers asked (kwargs_with asked (with_password (b'p' ∷ [])))
build_connection_kwargs-IsStrict_example =
    build_connection_kwargs-IsStrict no_parsers asked
      (kwargs_with asked (with_password (b'p' ∷ []))) built

truncate_output-IsHead_example : IsHead (0x61 ∷ 0xe9 ∷ []) 2 (truncate_output (0x61 ∷ 0xe9 ∷ []) 2)
truncate_output-IsHead_example =
    truncate_output-IsHead (0x61 ∷ 0xe9 ∷ []) 2 (omega arith, (omega arith, tt))

abbrev rejection : Text
rejection = codes "ion# dump x\nunknown keyword"

rejection_lines : splitlines rejection ≡ codes "ion# dump x" ∷ codes "unknown keyword" ∷ []
unfolding session
rejection_lines = refl

echo_skipped : is_skipped (some (codes "ion#")) (codes "ion# dump x") ≡ true
unfolding session
echo_skipped = refl

answer_read : is_skipped (some (codes "ion#")) (codes "unknown keyword") ≡ false
unfolding session
answer_read = refl

rejected : is_device_error ascii_letter rejection (some (codes "ion#")) ≡ true
unfolding session
rejected = refl

is_device_error-first_test :
    is_device_error ascii_letter rejection (some (codes "ion#"))
    ≡ device_error ascii_letter (strip (codes "unknown keyword"))
is_device_error-first_test =
    is_device_error-first ascii_letter (some (codes "ion#")) rejection (codes "ion# dump x" ∷ [])
      (codes "unknown keyword") [] rejection_lines (echo_skipped, tt) answer_read
