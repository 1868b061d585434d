-- ===== src/Client/Bounds.antt =====
-- client.py: how often `invoke` calls the SDK.
use prisma_sdwan_mcp.Prelude.Result.{Result, err, ok}
use prisma_sdwan_mcp.Prelude.{
  ◌==◌, Bool-cases, ℕ, zero, suc, ◌+◌, ◌-◌, ◌*◌, ◌^◌, ◌≤◌, min, ◌≡◌, refl, ◌∙◌, inl, inr, Bool,
  true, false, Option, none, some, arith,
}
use prisma_sdwan_mcp.Prelude.Text.{Text}
use prisma_sdwan_mcp.Config.{Env}
use prisma_sdwan_mcp.Value.{truthy}
use prisma_sdwan_mcp.Client.Extract.{status_code}
use prisma_sdwan_mcp.Client.{
  max_attempts, max_retry_wall_ms, Reply, returned, raised, World, Client, LoginError,
  is_token_expired, all_credentials, accept_login, login_with, login, give_up, pause, Next, relogin,
  wait, on_response, on_reply, attempts, run_attempts, after_login, enter, invoke,
}

-- A count of the SDK calls made so far: `sdk_func` makes one, and nothing else does.
pub record Counter {W : Type 0} (w : World W) : Type 0 where
  pub calls : W → ℕ
  pub on_call : (s : W) → calls (w.sdk_func s).1 ≡ calls s + 1
  pub on_login : (a b c : Text) (s : W) → calls (w.login_secret a b c s).1 ≡ calls s
  pub on_profile : (s : W) → calls (w.profile s) ≡ calls s
  pub on_time : (s : W) → calls (w.time s).1 ≡ calls s
  pub on_monotonic : (s : W) → calls (w.monotonic s).1 ≡ calls s
  pub on_sleep : (n : ℕ) (s : W) → calls (w.sleep n s) ≡ calls s
  pub on_jitter : (s : W) → calls (w.jitter s).1 ≡ calls s

module _ {W : Type 0} (w : World W) (env : Env) (k : Counter w) where
  login_with-calls :
      (o : Option (Text × Text × Text)) (c : Client W)
      → k.calls (login_with w env o c).1.world ≡ k.calls c.world
  unfolding login_with accept_login
  login_with-calls none c = refl
  login_with-calls (some (a, b, d)) c =
      let (result, s) = w.login_secret a b d c.world in
      elim (Bool-cases (truthy result)) [
        | inl e ↦ rw e (k.on_time (w.profile s) ∙ (k.on_profile s ∙ k.on_login a b d c.world))
        | inr e ↦ rw e (k.on_login a b d c.world)
      ]

  login-calls : (c : Client W) → k.calls (login w env c).1.world ≡ k.calls c.world
  unfolding login is_token_expired
  login-calls c =
      let now = record c { world = (w.time c.world).1 } in
      ground (
        arith,
        k.on_time c.world,
        login_with-calls (all_credentials w env) c,
        login_with-calls (all_credentials w env) now,
      )

  pause-calls :
      (n started : ℕ) (c : Client W) → k.calls (pause w env n started c).1.world ≡ k.calls c.world
  unfolding pause
  pause-calls n started c =
      let (now, s) = w.monotonic c.world in
      let remaining = max_retry_wall_ms - (now - started) in
      let (extra, s') = w.jitter s in
      let delay = min (500 * 2 ^ (n - 1) + extra) remaining in
      elim (Bool-cases (remaining == 0)) [
        | inl e ↦ rw e (k.on_monotonic c.world)
        | inr e ↦ rw e (k.on_sleep delay s' ∙ (k.on_jitter s ∙ k.on_monotonic c.world))
      ]

  -- What the loop goes on with makes at most `m` further calls.
  abbrev AtMost : ℕ → Next w env → Type 0
  AtMost m next =
      (again : Bool) (status : Option ℕ) (c : Client W)
      → k.calls (next again status c).1.world ≤ k.calls c.world + m

  relogin-calls :
      (m : ℕ) (next : Next w env) (status : Option ℕ)
      (out : Result LoginError (Unit {0}) × Client W)
      → AtMost m next
      → k.calls (relogin w env next status out).1.world ≤ k.calls out.1.world + m
  unfolding relogin
  relogin-calls m next status (err e, c) h = omega arith
  relogin-calls m next status (ok _, c) h = h true status c

  wait-calls :
      (m started : ℕ) (next : Next w env) (again : Bool) (status : Option ℕ) (out : Bool × Client W)
      → AtMost m next
      → k.calls (wait w env next started again status out).1.world ≤ k.calls out.1.world + m
  unfolding wait give_up
  wait-calls m started next again status (false, c) h = omega (arith, k.on_monotonic c.world)
  wait-calls m started next again status (true, c) h = h again status c

  on_reply-calls :
      (m n started : ℕ) (next : Next w env) (again : Bool) (reply : Reply) (c : Client W)
      → AtMost m next
      → k.calls (on_reply w env next n started again reply c).1.world ≤ k.calls c.world + m
  unfolding on_reply on_response give_up
  on_reply-calls m n started next again (raised name message) c h = omega arith
  on_reply-calls m n started next again (returned r) c h =
      let fresh = record c { logged_in = false } in
      ground (
        arith,
        k.on_monotonic c.world,
        login-calls fresh,
        relogin-calls m next (status_code r) (login w env fresh) h,
        pause-calls n started c,
        wait-calls m started next again (status_code r) (pause w env n started c) h,
      )

  attempts-calls : (left n started : ℕ) → AtMost left (attempts w env left n started)
  unfolding attempts give_up
  attempts-calls zero n started again status c = omega (arith, k.on_monotonic c.world)
  attempts-calls (suc left) n started again status c =
      let called = record c { world = (w.sdk_func c.world).1 } in
      omega (
        arith,
        k.on_call c.world,
        on_reply-calls left n started (attempts w env left (n + 1) started) again
            (w.sdk_func c.world).0 called (attempts-calls left (n + 1) started),
      )

  run_attempts-calls :
      (c : Client W) → k.calls (run_attempts w env c).1.world ≤ k.calls c.world + max_attempts
  unfolding run_attempts
  run_attempts-calls c =
      let (started, s) = w.monotonic c.world in
      omega (
        arith,
        k.on_monotonic c.world,
        attempts-calls max_attempts 1 started false none (record c { world = s }),
      )

  after_login-calls :
      (out : Result LoginError (Unit {0}) × Client W)
      → k.calls (after_login w env out).1.world ≤ k.calls out.1.world + max_attempts
  unfolding after_login
  after_login-calls (err e, c) = omega arith
  after_login-calls (ok _, c) = run_attempts-calls c

  enter-calls :
      (logged_in : Bool) (checked : Bool × Client W) (c : Client W)
      → k.calls checked.1.world ≡ k.calls c.world
      → k.calls (enter w env logged_in checked c).1.world ≤ k.calls c.world + max_attempts
  unfolding enter
  enter-calls true (false, now) c h = omega (arith, run_attempts-calls now)
  enter-calls true (true, now) c h =
      omega (arith, after_login-calls (login w env now), login-calls now)
  enter-calls false (_, now) c h = omega (arith, after_login-calls (login w env c), login-calls c)

  -- One `invoke` calls the SDK function at most four times, whatever the SDK answers.
  pub invoke-calls :
      (c : Client W) → k.calls (invoke w env c).1.world ≤ k.calls c.world + max_attempts
  unfolding invoke is_token_expired
  invoke-calls c = enter-calls c.logged_in (is_token_expired w env c) c (k.on_time c.world)
