-- ===== src/Cli/Ssh/Credentials.antt =====
-- cli/ssh.py: what a connection is opened with.
use prisma_sdwan_mcp.Prelude.{
  same_bool, Bool-cases, is_empty, ℕ, ◌≤◌, ◌≡◌, refl, ◌↔◌, inl, inr, true, false, not, ◌&&◌, ◌||◌,
  Option, none, some, List, arith,
}
use prisma_sdwan_mcp.Prelude.Text.{Text}
use prisma_sdwan_mcp.Prelude.Int.{ℤ, pos, negsuc}
use prisma_sdwan_mcp.Prelude.Result.{ok, ◌>>=◌, chain_parts}
use prisma_sdwan_mcp.Cli.Ssh.Session.{
  Request, Credential, with_password, with_key, ConnectionKwargs, is_none, port_in_range, Parser,
  load_private_key, credential_of, kwargs_with, build_connection_kwargs,
}

-- The credential is the one that was given, and no other was.
abbrev pub IsOnly :
    {Key : Type 0}
    → List (Parser Key)
    → (password private_key passphrase : Option Text) → Credential Key
    → Type 0
IsOnly parsers password key phrase (with_password p) =
    (password ≡ some p) × (key ≡ none) × (phrase ≡ none)
IsOnly parsers password key phrase (with_key k) =
    (password ≡ none)
    × ((material : Text) × (key ≡ some material)
        × (load_private_key parsers material phrase ≡ ok k))

pub record IsStrict {Key Seconds : Type 0} (parsers : List (Parser Key)) (r : Request Seconds)
    (k : ConnectionKwargs Key Seconds) : Type 0 where
  pub strict : k.ssh_strict ≡ true
  pub no_agent : k.allow_agent ≡ false
  pub system_keys : (k.system_host_keys ≡ true) ↔ (r.known_hosts_file ≡ none)
  pub target : (k.host ≡ r.host) × (k.port ≡ r.port) × (k.username ≡ r.username)
  pub port_bounds : (n : ℕ) × (k.port ≡ pos n) × (1 ≤ n) × (n ≤ 65535)
  pub only : IsOnly parsers r.password r.private_key r.private_key_passphrase k.credential

port_in_range-bounds :
    (p : ℤ) → port_in_range p ≡ true → (n : ℕ) × (p ≡ pos n) × (1 ≤ n) × (n ≤ 65535)
unfolding port_in_range
port_in_range-bounds (pos n) h = (n, refl, ground arith, ground arith)
port_in_range-bounds (negsuc n) h = cc

credential_of-IsOnly :
    {Key : Type 0} (parsers : List (Parser Key)) (password key phrase : Option Text)
    (c : Credential Key)
    → same_bool (is_none password) (is_none key) ≡ false
    → (is_none key && not (is_none phrase)) ≡ false
    → credential_of parsers password key phrase ≡ ok c
    → IsOnly parsers password key phrase c
unfolding credential_of
credential_of-IsOnly parsers (some p) (some m) phrase c one pass h = cc
credential_of-IsOnly parsers (some p) none (some q) c one pass h = cc
credential_of-IsOnly parsers (some p) none none c one pass h =
    let e : with_password p ≡ c = cc in rw (← e) (refl, refl, refl)
credential_of-IsOnly parsers none none phrase c one pass h = cc
credential_of-IsOnly parsers none (some m) phrase c one pass h =
    let (key, e, f) =
      chain_parts (load_private_key parsers m phrase) (λ key. ok (with_key key)) h in
    let g : with_key key ≡ c = cc in rw (← g) (refl, (m, refl, e))

is_none_iff : (o : Option Text) → (is_none o ≡ true) ↔ (o ≡ none)
is_none_iff none = (λ e. refl, λ e. refl)
is_none_iff (some a) = (λ e. cc, λ e. cc)

module _ {Key Seconds : Type 0} (parsers : List (Parser Key)) (r : Request Seconds) where
  kwargs_with-IsStrict :
      (k : ConnectionKwargs Key Seconds)
      → port_in_range r.port ≡ true
      → same_bool (is_none r.password) (is_none r.private_key) ≡ false
      → (is_none r.private_key && not (is_none r.private_key_passphrase)) ≡ false
      → (credential_of parsers r.password r.private_key r.private_key_passphrase >>= λ c.
          ok (kwargs_with r c))
        ≡ ok k
      → IsStrict parsers r k
  unfolding kwargs_with
  kwargs_with-IsStrict k b c d h =
      let (x, e, f) =
        chain_parts (credential_of parsers r.password r.private_key r.private_key_passphrase)
          (λ x. ok (kwargs_with r x)) h in
      let g : kwargs_with r x ≡ k = cc in
      rw (← g) (record {
        strict = refl;
        no_agent = refl;
        system_keys = is_none_iff r.known_hosts_file;
        target = (refl, refl, refl);
        port_bounds = port_in_range-bounds r.port b;
        only =
            credential_of-IsOnly parsers r.password r.private_key r.private_key_passphrase x c d e;
      })

  -- The arguments that are built check host keys strictly and ask no agent, use the system's known
  -- hosts exactly when no file is given, name the target asked for with a port from 1 to 65535, and
  -- hold the one credential that was given: the password, or the key that the private key parses to.
  pub build_connection_kwargs-IsStrict :
      (k : ConnectionKwargs Key Seconds)
      → build_connection_kwargs parsers r ≡ ok k
      → IsStrict parsers r k
  unfolding build_connection_kwargs
  build_connection_kwargs-IsStrict k h =
      elim (Bool-cases (is_empty r.host || is_empty r.username)) [
        | inl e ↦ cc (rw e at h)
        | inr a ↦ elim (Bool-cases (port_in_range r.port)) [
          | inr e ↦ cc (rw (a, e) at h)
          | inl b ↦ elim (Bool-cases (same_bool (is_none r.password) (is_none r.private_key))) [
            | inl e ↦ cc (rw (a, b, e) at h)
            | inr c ↦
                elim (Bool-cases
                  (is_none r.private_key && not (is_none r.private_key_passphrase))) [
                    | inl e ↦ cc (rw (a, b, c, e) at h)
                    | inr d ↦ kwargs_with-IsStrict k b c d (rw (a, b, c, d) at h)
                  ]
          ]
        ]
      ]
