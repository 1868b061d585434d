-- ===== src/Cli/Ssh/Session.antt =====
-- cli/ssh.py: the connection's arguments, and what an error says and means.
use prisma_sdwan_mcp.Prelude.{
  ltb, leb, if◌then◌else◌, same_bool, length, take, is_empty, ℕ, Bool, true, false, not, ◌&&◌, ◌||◌,
  Option, none, some, List, [], ◌∷◌,
}
use prisma_sdwan_mcp.Prelude.Text.{Text, codes, starts_with, contains, lower}
use prisma_sdwan_mcp.Prelude.Int.{ℤ, pos, negsuc}
use prisma_sdwan_mcp.Prelude.Result.{Result, err, ok, ◌>>=◌, ◌>>◌, guard}
use prisma_sdwan_mcp.Cli.Ssh.Output.{Exception}
use prisma_sdwan_mcp.Re.{lit, replace_all}

abbrev pub max_error_length : ℕ
max_error_length = 1000

-- `message.replace(secret, "[redacted]")` for each secret that is there and not empty.
unfoldable pub hide_secrets : List (Option Text) → Text → Text
unfolding replace_all codes
hide_secrets [] message = message
hide_secrets (none ∷ rest) message = hide_secrets rest message
hide_secrets (some [] ∷ rest) message = hide_secrets rest message
hide_secrets (some (c ∷ s) ∷ rest) message =
    hide_secrets rest (replace_all (lit (c ∷ s)) (codes "[redacted]") message)

-- `str(error) or error.__class__.__name__`
error_text : Exception → Text
error_text e = if is_empty e.message then e.class_name else e.message

-- `_safe_error_message_details`: the text, and whether it was cut.
unfoldable pub safe_error_message_details : Exception → List (Option Text) → Text × Bool
unfolding hide_secrets error_text
safe_error_message_details e secrets =
    let message = hide_secrets secrets (error_text e) in
    (take max_error_length message, ltb max_error_length (length message))

unfoldable pub is_authentication_error : Exception → Bool
unfolding lower contains codes
is_authentication_error e =
    contains (lower e.class_name) (codes "auth")
    || contains (lower e.message) (codes "authentication")

unfoldable pub is_connection_refused_by_device : Exception → Bool
unfolding lower contains codes
is_connection_refused_by_device e =
    let text = lower e.message in
    contains text (codes "error reading ssh protocol banner")
    || contains text (codes "connection reset by peer")
    || contains text (codes "connection aborted")

unfoldable pub is_host_key_error : Exception → Bool
unfolding lower contains codes
is_host_key_error e =
    let text = lower e.message in
    contains (lower e.class_name) (codes "hostkey")
    || contains text (codes "host key")
    || contains text (codes "not found in known_hosts")

-- The messages of the ValueErrors, and one that the probe raised.
pub data Invalid : Type 0 where
  host_and_username port_range one_credential passphrase_without_key not_pem unparsable : Invalid
  probe_value : Text → Invalid

-- What a session is asked for. `Seconds` is the type of the timeouts.
pub record Request (Seconds : Type 0) : Type 0 where
  pub host : Text
  pub port : ℤ
  pub username : Text
  pub password : Option Text
  pub private_key : Option Text
  pub private_key_passphrase : Option Text
  pub connect_timeout : Seconds
  pub read_timeout : Seconds
  pub known_hosts_file : Option Text

pub data Credential (Key : Type 0) : Type 0 where
  with_password : Text → Credential Key
  with_key : Key → Credential Key

-- The dictionary for Netmiko. `alt_key_file` stands for itself and for `alt_host_keys`.
pub record ConnectionKwargs (Key Seconds : Type 0) : Type 0 where
  pub host : Text
  pub port : ℤ
  pub username : Text
  pub conn_timeout : Seconds
  pub auth_timeout : Seconds
  pub banner_timeout : Seconds
  pub read_timeout_override : Seconds
  pub allow_agent : Bool
  pub ssh_strict : Bool
  pub system_host_keys : Bool
  pub verbose : Bool
  pub alt_key_file : Option Text
  pub credential : Credential Key

abbrev pub is_none : {A : Type 0} → Option A → Bool
is_none none = true
is_none (some a) = false

-- `1 <= port <= 65535`
unfoldable pub port_in_range : ℤ → Bool
port_in_range (pos n) = leb 1 n && leb n 65535
port_in_range (negsuc n) = false

-- A parser of one key type gives `none` where it raises.
abbrev pub Parser : Type 0 → Type 0
Parser Key = Text → Option Text → Option Key

first_key : {Key : Type 0} → List (Parser Key) → Text → Option Text → Result Invalid Key
first_key [] material passphrase = err unparsable
first_key (p ∷ ps) material passphrase =
    let later = first_key ps material passphrase in
    elim (p material passphrase) [ some key ↦ ok key | none ↦ later ]

-- `_load_private_key`, over the parsers of the four key types.
unfoldable pub load_private_key :
    {Key : Type 0} → List (Parser Key) → Text → Option Text → Result Invalid Key
unfolding first_key starts_with codes
load_private_key parsers material passphrase =
    if starts_with material (codes "-----BEGIN ")
    then first_key parsers material passphrase
    else err not_pem

-- The last branch: the password, or the key that the private key parses to.
unfoldable pub credential_of :
    {Key : Type 0}
    → List (Parser Key)
    → (password private_key passphrase : Option Text) → Result Invalid (Credential Key)
unfolding load_private_key
credential_of parsers (some password) private_key passphrase = ok (with_password password)
credential_of parsers none none passphrase = err one_credential
credential_of parsers none (some material) passphrase = do
  key ← load_private_key parsers material passphrase
  ok (with_key key)

-- The dictionary, for a credential.
unfoldable pub kwargs_with :
    {Key Seconds : Type 0} → Request Seconds → Credential Key → ConnectionKwargs Key Seconds
kwargs_with r credential = record {
  host = r.host;
  port = r.port;
  username = r.username;
  conn_timeout = r.connect_timeout;
  auth_timeout = r.connect_timeout;
  banner_timeout = r.connect_timeout;
  read_timeout_override = r.read_timeout;
  allow_agent = false;
  ssh_strict = true;
  system_host_keys = is_none r.known_hosts_file;
  verbose = false;
  alt_key_file = r.known_hosts_file;
  credential = credential;
}

unfoldable pub build_connection_kwargs :
    {Key Seconds : Type 0}
    → List (Parser Key)
    → Request Seconds
    → Result Invalid (ConnectionKwargs Key Seconds)
unfolding credential_of port_in_range kwargs_with
build_connection_kwargs parsers r = do
  guard (not (is_empty r.host || is_empty r.username)) host_and_username
  guard (port_in_range r.port) port_range
  guard (not (same_bool (is_none r.password) (is_none r.private_key))) one_credential
  guard (not (is_none r.private_key && not (is_none r.private_key_passphrase)))
      passphrase_without_key
  credential ← credential_of parsers r.password r.private_key r.private_key_passphrase
  ok (kwargs_with r credential)
