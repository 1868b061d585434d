-- ===== src/Client/Tests.antt =====
-- The client against an SDK that is overloaded for ever, and the bound at that input.
use prisma_sdwan_mcp.Prelude.{ℕ, ◌+◌, ◌≤◌, ◌≡◌, refl, true, false, none, some}
use prisma_sdwan_mcp.Config.{Env}
use prisma_sdwan_mcp.Value.{null}
use prisma_sdwan_mcp.Client.Extract.{http}
use prisma_sdwan_mcp.Client.{
  returned, World, Client, is_token_expired, attempts, run_attempts, enter, invoke,
}
use prisma_sdwan_mcp.Client.Bounds.{Counter, invoke-calls}

-- The state of this world is the number of calls made so far.
abbrev pub overloaded : World ℕ
overloaded = record {
  sdk_func = λ n. (returned (http (some 503) false null), n + 1);
  login_secret = λ a b c n. (null, n);
  profile = λ n. n;
  time = λ n. (0, n);
  monotonic = λ n. (0, n);
  sleep = λ d n. n;
  jitter = λ n. (100, n);
  float_ms = λ t. 0;
}

abbrev pub counted : Counter overloaded
counted = record {
  calls = λ n. n;
  on_call = λ n. refl;
  on_login = λ a b c n. refl;
  on_profile = λ n. refl;
  on_time = λ n. refl;
  on_monotonic = λ n. refl;
  on_sleep = λ d n. refl;
  on_jitter = λ n. refl;
}

abbrev pub ready : Client ℕ
ready = record { logged_in = true; token_expiry = none; world = 0 }

abbrev pub unset_env : Env
unset_env name = none

four_calls : (invoke overloaded unset_env ready).1.world ≡ 4
unfolding invoke enter run_attempts attempts is_token_expired
four_calls = refl

invoke-calls_example : (invoke overloaded unset_env ready).1.world ≤ 0 + 4
invoke-calls_example = invoke-calls overloaded unset_env counted ready
