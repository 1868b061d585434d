-- ===== src/Config.antt =====
-- config.py: settings read from the environment. `load_dotenv` and the expansion of `~` are not
-- modelled: the environment is the one that is left after the .env files were read.
pub mod Laws
pub mod Tests
use prisma_sdwan_mcp.Prelude.{
  if◌then◌else◌, is_empty, ℕ, min, String, Bool, true, false, not, ◌||◌, Option, none, some, List,
  [], ◌∷◌,
}
use prisma_sdwan_mcp.Prelude.Text.{Text, codes, text_eq, strip, lower}
use prisma_sdwan_mcp.Prelude.Int.{ℤ, parse_int, below, to_nat}
use prisma_sdwan_mcp.Prelude.Result.{Result, err, ok, ◌>>=◌}

-- `os.getenv`: `none` where the variable is not set.
abbrev pub Env : Type 0
Env = String → Option Text

-- The ValueErrors of `_int_env`, with the variable's name and, for a small value, the minimum.
pub data ConfigError : Type 0 where
  not_an_integer : String → ConfigError
  too_small : String → ℕ → ConfigError

abbrev pub default_controller : Text
default_controller = codes "https://api.sase.paloaltonetworks.com"

abbrev pub default_max_response_bytes : ℕ
default_max_response_bytes = 40960

abbrev pub default_page_size : ℕ
default_page_size = 50

abbrev pub max_page_size : ℕ
max_page_size = 200

abbrev pub default_max_fanout : ℕ
default_max_fanout = 100

-- The checks on a value that is set and not empty.
int_value : String → ℕ → Option ℤ → Result ConfigError ℕ
int_value name minimum none = err (not_an_integer name)
int_value name minimum (some value) =
    if below value minimum then err (too_small name minimum) else ok (to_nat value)

unfoldable pub int_env : Env → String → ℕ → ℕ → Result ConfigError ℕ
unfolding int_value
int_env env name default minimum = elim (env name) [
  | none ↦ ok default
  | some raw ↦ if is_empty raw then ok default else int_value name minimum (parse_int raw)
]

is_truthy : Text → Bool
is_truthy v =
    text_eq v (codes "1")
    || text_eq v (codes "true")
    || text_eq v (codes "yes")
    || text_eq v (codes "on")

unfoldable pub bool_env : Env → String → Bool → Bool
unfolding is_truthy
bool_env env name default = elim (env name) [
  | none ↦ default
  | some raw ↦ is_truthy (lower (strip raw))
]

pub get_controller : Env → Text
get_controller env =
    let value =
      strip (elim (env "PAN_CONTROLLER") [ none ↦ default_controller | some raw ↦ raw ]) in
    if is_empty value then default_controller else value

unfoldable pub get_credentials : Env → Option Text × Option Text × Option Text
get_credentials env = (env "PAN_CLIENT_ID", env "PAN_CLIENT_SECRET", env "PAN_TSG_ID")

unfoldable pub get_max_response_bytes : Env → Result ConfigError ℕ
get_max_response_bytes env = int_env env "MCP_MAX_RESPONSE_BYTES" default_max_response_bytes 1

unfoldable pub get_max_page_size : Env → Result ConfigError ℕ
get_max_page_size env = int_env env "MCP_MAX_PAGE_SIZE" max_page_size 1

unfoldable pub get_default_page_size : Env → Result ConfigError ℕ
unfolding get_max_page_size
get_default_page_size env = do
  size ← int_env env "MCP_DEFAULT_PAGE_SIZE" default_page_size 1
  most ← get_max_page_size env
  ok (min size most)

pub get_max_fanout : Env → Result ConfigError ℕ
get_max_fanout env = int_env env "MCP_MAX_FANOUT" default_max_fanout 1

unfoldable pub expert_tool_enabled : Env → Bool
expert_tool_enabled env = bool_env env "MCP_EXPERT_TOOL_ENABLED" true

unfoldable pub allow_unverified_compat : Env → Bool
allow_unverified_compat env = bool_env env "MCP_ALLOW_UNVERIFIED_COMPAT" false

-- `(value or "").strip()` is not empty.
unfoldable pub is_set : Option Text → Bool
is_set none = false
is_set (some value) = not (is_empty (strip value))

unfoldable pub pick : Env → String → String → String
unfolding is_set
pick env short long = if is_set (env short) then short else long

unfoldable pub unset : Env → String → Option Text
unfolding is_set
unset env name = if is_set (env name) then env name else none

unfoldable pub first_set : Env → List String → Option Text
unfolding unset
first_set env [] = none
first_set env (name ∷ names) =
    let later = first_set env names in
    elim (unset env name) [ some value ↦ some value | none ↦ later ]

pub record IonCredentials : Type 0 where
  pub username : Option Text
  pub password : Option Text
  pub private_key : Option Text
  pub passphrase : Option Text

unfoldable pub get_ion_credentials : Env → IonCredentials
unfolding first_set
get_ion_credentials env = record {
  username = first_set env ("ION_USERNAME" ∷ "PRISMA_ION_USERNAME" ∷ []);
  password = first_set env ("ION_PASSWORD" ∷ "PRISMA_ION_PASSWORD" ∷ []);
  private_key = first_set env ("ION_PRIVATE_KEY" ∷ "PRISMA_ION_PRIVATE_KEY" ∷ []);
  passphrase =
      first_set env ("ION_PRIVATE_KEY_PASSPHRASE" ∷ "PRISMA_ION_PRIVATE_KEY_PASSPHRASE" ∷ []);
}

-- The value that is truthy, or the other.
either_text : Option Text → Option Text → Text
either_text (some (c ∷ s)) other = c ∷ s
either_text (some []) (some t) = t
either_text (some []) none = []
either_text none (some t) = t
either_text none none = []

-- `expand` is `os.path.expanduser`.
unfoldable pub get_ion_known_hosts : (expand : Text → Text) → Env → Option Text
unfolding either_text
get_ion_known_hosts expand env =
    let value = strip (either_text (env "ION_KNOWN_HOSTS") (env "PRISMA_ION_KNOWN_HOSTS")) in
    if is_empty value then none else some (expand value)

unfoldable pub get_ion_ssh_port : Env → Result ConfigError ℕ
get_ion_ssh_port env = int_env env (pick env "ION_SSH_PORT" "PRISMA_ION_SSH_PORT") 22 1

unfoldable pub get_ion_probe_timeout : Env → Result ConfigError ℕ
get_ion_probe_timeout env =
    int_env env (pick env "ION_PROBE_TIMEOUT" "PRISMA_ION_PROBE_TIMEOUT") 3 1

unfoldable pub get_ion_connect_timeout : Env → Result ConfigError ℕ
get_ion_connect_timeout env =
    int_env env (pick env "ION_CONNECT_TIMEOUT" "PRISMA_ION_CONNECT_TIMEOUT") 10 1

unfoldable pub get_ion_read_timeout : Env → Result ConfigError ℕ
get_ion_read_timeout env = int_env env (pick env "ION_READ_TIMEOUT" "PRISMA_ION_READ_TIMEOUT") 300 1

unfoldable pub get_ion_max_output_bytes : Env → Result ConfigError ℕ
get_ion_max_output_bytes env =
    int_env env (pick env "ION_MAX_OUTPUT_BYTES" "PRISMA_ION_MAX_OUTPUT_BYTES") 40960 1

unfoldable pub get_ion_max_commands : Env → Result ConfigError ℕ
get_ion_max_commands env = int_env env (pick env "ION_MAX_COMMANDS" "PRISMA_ION_MAX_COMMANDS") 10 1
