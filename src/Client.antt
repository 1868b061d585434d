-- ===== src/Client.antt =====
-- client.py: the SDK client with its login and its retries. Seconds are counted in milliseconds,
-- and `token_expiry` is `none` where the code has infinity. What the SDK, the clocks and the random
-- delay do is a parameter over a state of the world.
pub mod Extract
pub mod Bounds
pub mod Tests
use prisma_sdwan_mcp.Prelude.Int.{pos}
use prisma_sdwan_mcp.Prelude.Result.{Result, err, ok}
use prisma_sdwan_mcp.Prelude.{
  ltb, leb, ◌==◌, if◌then◌else◌, ℕ, zero, suc, ◌+◌, ◌-◌, ◌*◌, ◌^◌, min, max, String, Bool, true,
  false, not, ◌&&◌, ◌||◌, Option, none, some, List, [], ◌∷◌, ◌++◌,
}
use prisma_sdwan_mcp.Prelude.Text.{Text, codes}
use prisma_sdwan_mcp.Value.{
  Value, bool, int, real, str, dict, Fields, end, field, get_or_null, truthy,
}
use prisma_sdwan_mcp.Config.{Env, get_credentials}
use prisma_sdwan_mcp.Client.Extract.{
  Response, status_code, cgx_status, status_value, extract_response,
}
use prisma_sdwan_mcp.Resolver.Records.{decimal}

abbrev pub fallback_token_ms : ℕ
fallback_token_ms = 839000

abbrev pub token_safety_margin_ms : ℕ
token_safety_margin_ms = 60000

abbrev pub max_attempts : ℕ
max_attempts = 4

abbrev pub max_retry_wall_ms : ℕ
max_retry_wall_ms = 12000

-- An SDK call returns or raises an exception, with its class and text.
pub data Reply : Type 0 where
  returned : Response → Reply
  raised : (class_name message : Text) → Reply

-- `sdk_func`, `login_secret`, `profile`, the clocks, `time.sleep` and `random.uniform`; `float_ms`
-- reads a float, in thousandths.
pub record World (W : Type 0) : Type 0 where
  pub sdk_func : W → Reply × W
  pub login_secret : Text → Text → Text → W → Value × W
  pub profile : W → W
  pub time : W → ℕ × W
  pub monotonic : W → ℕ × W
  pub sleep : ℕ → W → W
  pub jitter : W → ℕ × W
  pub float_ms : Text → ℕ

pub record Client (W : Type 0) : Type 0 where
  pub logged_in : Bool
  pub token_expiry : Option ℕ
  pub world : W

-- The RuntimeErrors of `login`.
pub data LoginError : Type 0 where
  missing_credentials authentication_failed : LoginError

module _ {W : Type 0} (w : World W) (env : Env) where
  positive_ms : Value → Option ℕ
  positive_ms (int (pos (suc n))) = some (suc n * 1000)
  positive_ms (bool true) = some 1000
  positive_ms (real t) = let ms = w.float_ms t in if ltb 0 ms then some ms else none
  positive_ms _ = none

  first_positive : List String → Fields → Option ℕ
  unfolding positive_ms get_or_null
  first_positive [] fs = none
  first_positive (k ∷ ks) fs =
      let later = first_positive ks fs in
      elim (positive_ms (get_or_null k fs)) [ some ms ↦ some ms | none ↦ later ]

  candidate_lifetime : Value → Option ℕ
  unfolding first_positive
  candidate_lifetime (dict fs) =
      first_positive
        ("expires_in" ∷ "expiresIn" ∷ "expires" ∷ "token_lifetime" ∷ "token_lifetime_seconds" ∷ [])
        fs
  candidate_lifetime _ = none

  first_lifetime : List Value → Option ℕ
  unfolding candidate_lifetime
  first_lifetime [] = none
  first_lifetime (v ∷ vs) =
      let later = first_lifetime vs in
      elim (candidate_lifetime v) [ some ms ↦ some ms | none ↦ later ]

  unfoldable pub token_lifetime : Value → Option ℕ
  unfolding first_lifetime get_or_null
  token_lifetime (dict fs) = first_lifetime (
      dict fs
      ∷ get_or_null "cgx_content" fs
      ∷ get_or_null "data" fs
      ∷ get_or_null "token" fs
      ∷ get_or_null "oauth" fs
      ∷ [])
  token_lifetime v = first_lifetime (v ∷ [])

  -- `time.time() >= self.token_expiry`
  unfoldable pub is_token_expired : Client W → Bool × Client W
  is_token_expired c =
      let (now, world) = w.time c.world in
      (
        elim c.token_expiry [ none ↦ false | some expiry ↦ leb expiry now ],
        record c { world = world },
      )

  -- The credentials, if all three are set and not empty.
  all_credentials : Option (Text × Text × Text)
  unfolding get_credentials
  all_credentials =
      let (client_id, secret, tsg) = get_credentials env in
      elim client_id [
        | some (a ∷ as_) ↦ elim secret [
          | some (b ∷ bs) ↦ elim tsg [ some (c ∷ cs) ↦ some (a ∷ as_, b ∷ bs, c ∷ cs) | _ ↦ none ]
          | _ ↦ none
        ]
        | _ ↦ none
      ]

  accept_login : Value → Client W → Client W
  unfolding token_lifetime
  accept_login result c =
      let (now, world) = w.time (w.profile c.world) in
      let lifetime : ℕ = elim (token_lifetime result) [ none ↦ fallback_token_ms | some ms ↦ ms ] in
      record {
        logged_in = true;
        token_expiry = some (now + max 1000 (lifetime - token_safety_margin_ms));
        world = world;
      }

  login_with : Option (Text × Text × Text) → Client W → Result LoginError (Unit {0}) × Client W
  unfolding truthy accept_login
  login_with none c = (err missing_credentials, c)
  login_with (some (client_id, secret, tsg)) c =
      let (result, world) = w.login_secret client_id secret tsg c.world in
      let c' : Client W = record c { world = world } in
      if truthy result then (ok tt, accept_login result c') else (err authentication_failed, c')

  -- `login`; the lock is not modelled: the client is one state.
  unfoldable pub login : Client W → Result LoginError (Unit {0}) × Client W
  unfolding login_with all_credentials is_token_expired
  login c =
      let (expired, c') = is_token_expired c in
      if c.logged_in
      then (if expired then login_with all_credentials c' else (ok tt, c'))
      else login_with all_credentials c

  unfoldable pub is_retryable : Option ℕ → Bool
  is_retryable none = false
  is_retryable (some s) = s == 429 || (leb 500 s && leb s 599)

  unfoldable pub needs_login : Response → Bool
  unfolding status_code cgx_status
  needs_login r = elim (status_code r) [
    | none ↦ false
    | some s ↦ (s == 401 || s == 403) && not (cgx_status r)
  ]

  transient : ℕ → Option ℕ → ℕ → Value
  unfolding codes decimal
  transient attempts status elapsed = dict (
      field "error"
        (str (codes "Transient API failure after " ++ (decimal attempts ++ codes " attempts")))
        (field "status_code" (status_value status) (
          field "retry_count" (int (pos attempts))
            (field "elapsed_seconds" (real (decimal elapsed)) end))))

  -- After the loop, or at its `break`: the elapsed time is read once more.
  give_up : ℕ → ℕ → Option ℕ → Client W → Result LoginError Value × Client W
  unfolding transient
  give_up attempts started status c =
      let (now, world) = w.monotonic c.world in
      (ok (transient attempts status (now - started)), record c { world = world })

  -- The wait before another attempt, and whether the loop goes on: not if no time remains.
  pause : ℕ → ℕ → Client W → Bool × Client W
  pause attempt started c =
      let (now, world) = w.monotonic c.world in
      let remaining = max_retry_wall_ms - (now - started) in
      if remaining == 0
      then (false, record c { world = world })
      else let (extra, world') = w.jitter world in
        (
          true,
          record c { world = w.sleep (min (500 * 2 ^ (attempt - 1) + extra) remaining) world' },
        )

  -- What the loop goes on with: whether it has logged in again, and the last status.
  abbrev Next : Type 0
  Next = Bool → Option ℕ → Client W → Result LoginError Value × Client W

  -- `self.login()` inside the loop; an exception of it leaves `invoke`.
  relogin :
      Next → Option ℕ → Result LoginError (Unit {0}) × Client W → Result LoginError Value × Client W
  relogin next status (err e, c) = (err e, c)
  relogin next status (ok _, c) = next true status c

  wait : Next → ℕ → Bool → Option ℕ → Bool × Client W → Result LoginError Value × Client W
  unfolding give_up
  wait next started again status (false, c) = give_up max_attempts started status c
  wait next started again status (true, c) = next again status c

  -- One round of the loop after the SDK returned.
  on_response : Next → ℕ → ℕ → Bool → Response → Client W → Result LoginError Value × Client W
  unfolding relogin wait give_up pause needs_login is_retryable login extract_response status_code
  on_response next attempt started again r c =
      if needs_login r
      then (if again
          then (ok (extract_response r), c)
          else relogin next (status_code r) (login (record c { logged_in = false })))
      else if is_retryable (status_code r)
      then (if ltb attempt max_attempts
          then wait next started again (status_code r) (pause attempt started c)
          else give_up attempt started (status_code r) c)
      else (ok (extract_response r), c)

  on_reply : Next → ℕ → ℕ → Bool → Reply → Client W → Result LoginError Value × Client W
  unfolding on_response codes
  on_reply next attempt started again (raised name message) c =
      (ok (dict (field "error" (str message) (field "exception_type" (str name) end))), c)
  on_reply next attempt started again (returned r) c = on_response next attempt started again r c

  -- The attempts that are left, the number of the next one, and what the loop carries.
  attempts : ℕ → ℕ → ℕ → Next
  unfolding on_reply give_up
  attempts zero attempt started again last_status c = give_up max_attempts started last_status c
  attempts (suc left) attempt started again last_status c =
      let (reply, world) = w.sdk_func c.world in
      on_reply (attempts left (attempt + 1) started) attempt started again reply
        (record c { world = world })

  pub run_attempts : Client W → Result LoginError Value × Client W
  unfolding attempts
  run_attempts c =
      let (started, world) = w.monotonic c.world in
      attempts max_attempts 1 started false none (record c { world = world })

  pub after_login : Result LoginError (Unit {0}) × Client W → Result LoginError Value × Client W
  unfolding run_attempts
  after_login (err e, c) = (err e, c)
  after_login (ok _, c) = run_attempts c

  -- `if not self.logged_in or self._is_token_expired()`; the clock is read only if logged in.
  pub enter : Bool → Bool × Client W → Client W → Result LoginError Value × Client W
  enter true (false, c') c = run_attempts c'
  enter true (true, c') c = after_login (login c')
  enter false checked c = after_login (login c)

  unfoldable pub invoke : Client W → Result LoginError Value × Client W
  invoke c = enter c.logged_in (is_token_expired c) c
