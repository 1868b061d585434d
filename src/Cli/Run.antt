-- ===== src/Cli/Run.antt =====
-- tools/cli.py: the tool `run_commands`, in the order of its steps.
pub mod Order
pub mod Report
pub mod Sessions
pub mod Approved
pub mod Cap
pub mod Tests
use prisma_sdwan_mcp.Prelude.{
  if◌then◌else◌, same_bool, length, ℕ, ◌/◌, min, max, Bool, Option, none, some, List, [], ◌∷◌, map,
}
use prisma_sdwan_mcp.Prelude.Text.{Text}
use prisma_sdwan_mcp.Prelude.Int.{pos}
use prisma_sdwan_mcp.Prelude.Result.{Result, err, ok, ◌>>=◌}
use prisma_sdwan_mcp.Errors.{Failure}
use prisma_sdwan_mcp.Value.{null}
use prisma_sdwan_mcp.Config.{
  Env, ConfigError, get_max_response_bytes, IonCredentials, get_ion_credentials,
  get_ion_known_hosts, get_ion_ssh_port, get_ion_probe_timeout, get_ion_connect_timeout,
  get_ion_read_timeout, get_ion_max_output_bytes,
}
use prisma_sdwan_mcp.Safety.{Patterns}
use prisma_sdwan_mcp.Resolver.{Services, given}
use prisma_sdwan_mcp.Cli.Policy.{Command, text, object, BatchDecision, sequence, validate_batch}
use prisma_sdwan_mcp.Cli.Address.{Address, resolve_device_address}
use prisma_sdwan_mcp.Cli.Reply.{
  Target, Reply, policy_denied, not_configured, no_target, unresolved, text_or_null, reply_of,
}
use prisma_sdwan_mcp.Cli.Ssh.Session.{Request, is_none, Parser}
use prisma_sdwan_mcp.Cli.Ssh.Execute.{SessionResult, Escape, setting, Network, execute_commands}

-- The names of the arguments of the tool.
pub record Call : Type 0 where
  pub commands : List Command
  pub element : Option Text
  pub host : Option Text
  pub site : Option Text

-- `_configured_credentials`, with `none` for "config".
unfoldable pub configured_credentials : Env → Option (Text × IonCredentials)
unfolding get_ion_credentials
configured_credentials env =
    let c = get_ion_credentials env in
    elim c.username [
      | none ↦ none
      | some [] ↦ none
      | some (x ∷ xs) ↦
          if same_bool (is_none c.password) (is_none c.private_key) then none else some (x ∷ xs, c)
    ]

abbrev pub min_per_command_output_bytes : ℕ
min_per_command_output_bytes = 1024

unfoldable pub per_command_cap : ℕ → ℕ → ℕ → ℕ
per_command_cap max_output max_response count =
    max min_per_command_output_bytes (min max_output (max_response / max 1 count))

-- The settings that are read behind the resolution, in the order of the code.
pub record Settings : Type 0 where
  pub cap : ℕ
  pub connect_timeout : ℕ
  pub read_timeout : ℕ
  pub probe_timeout : ℕ

unfoldable pub read_settings : Env → ℕ → Result ConfigError Settings
unfolding per_command_cap get_ion_max_output_bytes get_max_response_bytes get_ion_connect_timeout
    get_ion_read_timeout get_ion_probe_timeout
read_settings env count = do
  max_output ← get_ion_max_output_bytes env
  max_response ← get_max_response_bytes env
  connect_timeout ← get_ion_connect_timeout env
  read_timeout ← get_ion_read_timeout env
  probe_timeout ← get_ion_probe_timeout env
  ok (record {
    cap = per_command_cap max_output max_response count;
    connect_timeout = connect_timeout;
    read_timeout = read_timeout;
    probe_timeout = probe_timeout;
  })

-- The text of a command; the policy lets nothing else pass.
unfoldable pub command_text : Command → Text
command_text (text t) = t
command_text (object t) = t

-- The server: the controller's answers and what a resolution does to the world, the network, the
-- parsers of keys, the patterns of `runtime.safety`, `os.path.expanduser`, and the word characters.
pub record Server (S Key : Type 0) : Type 0 where
  pub services : S → Services
  pub after_resolution : Text → Option Text → S → S
  pub net : Network S Key ℕ
  pub parsers : List (Parser Key)
  pub patterns : Patterns
  pub expand : Text → Text
  pub is_word : ℕ → Bool

unfoldable pub resolved_target : ℕ → Address → Target
resolved_target port a = record {
  host = a.host;
  port = port;
  element = a.element_name;
  element_id = a.element_id;
  site_id = a.site_id;
  interface_id = a.interface_id;
  interface_name = a.interface_name;
}

module _ {S Key : Type 0} (v : Server S Key) (env : Env) where
  unfoldable pub request_for : Target → Text → IonCredentials → Settings → Request ℕ
  unfolding get_ion_known_hosts
  request_for t username c settings = record {
    host = t.host;
    port = pos t.port;
    username = username;
    password = c.password;
    private_key = c.private_key;
    private_key_passphrase = c.passphrase;
    connect_timeout = settings.connect_timeout;
    read_timeout = settings.read_timeout;
    known_hosts_file = get_ion_known_hosts v.expand env;
  }

  unfoldable pub session_reply :
      Target → ℕ → Result Escape SessionResult × S → Result Escape Reply × S
  unfolding reply_of
  session_reply t cap (err e, s) = (err e, s)
  session_reply t cap (ok result, s) = (ok (reply_of v.patterns t cap result), s)

  unfoldable pub with_settings :
      Call
      → Text × IonCredentials
      → Target
      → Result ConfigError Settings
      → S
      → Result Escape Reply × S
  unfolding session_reply request_for execute_commands command_text
  with_settings call c t (err e) s = (err (setting e), s)
  with_settings call (username, c) t (ok settings) s = session_reply t settings.cap (
      execute_commands v.is_word v.net v.parsers env (request_for t username c settings)
        settings.probe_timeout (some (pos settings.cap)) (map command_text call.commands) s)

  unfoldable pub at_target : Call → Text × IonCredentials → Target → S → Result Escape Reply × S
  unfolding with_settings read_settings
  at_target call c t s = with_settings call c t (read_settings env (length call.commands)) s

  unfoldable pub at_address :
      Call → Text × IonCredentials → ℕ → Result Failure Address → S → Result Escape Reply × S
  unfolding at_target resolved_target
  at_address call c port (err e) s = (ok (unresolved e), s)
  at_address call c port (ok a) s = at_target call c (resolved_target port a) s

  unfoldable pub given_host : Call → Text → ℕ → Target
  unfolding text_or_null
  given_host call host port = record {
    host = host;
    port = port;
    element = text_or_null call.element;
    element_id = null;
    site_id = null;
    interface_id = null;
    interface_name = null;
  }

  -- The third step: an address that was given, or the one that the element's name resolves to.
  unfoldable pub choose_target :
      Call
      → Text × IonCredentials
      → Option Text
      → Option Text
      → Result ConfigError ℕ
      → S
      → Result Escape Reply × S
  unfolding at_target at_address given_host resolve_device_address
  choose_target call c none none port s = (ok no_target, s)
  choose_target call c (some host) element (err e) s = (err (setting e), s)
  choose_target call c (some host) element (ok port) s =
      at_target call c (given_host call host port) s
  choose_target call c none (some element) (err e) s = (err (setting e), s)
  choose_target call c none (some element) (ok port) s =
      at_address call c port (resolve_device_address (v.services s) element call.site)
        (v.after_resolution element call.site s)

  unfoldable pub with_credentials :
      Call → Option (Text × IonCredentials) → S → Result Escape Reply × S
  unfolding choose_target given get_ion_ssh_port
  with_credentials call none s = (ok not_configured, s)
  with_credentials call (some c) s =
      choose_target call c (given call.host) (given call.element) (get_ion_ssh_port env) s

  unfoldable pub decided : Call → Result ConfigError BatchDecision → S → Result Escape Reply × S
  unfolding with_credentials configured_credentials
  decided call (err e) s = (err (setting e), s)
  decided call (ok d) s =
      if d.allowed
      then with_credentials call (configured_credentials env) s
      else (ok (policy_denied d), s)

  unfoldable pub run_commands : Call → S → Result Escape Reply × S
  unfolding decided validate_batch
  run_commands call s = decided call (validate_batch env (sequence call.commands) none) s
