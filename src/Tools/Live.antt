-- ===== src/Tools/Live.antt =====
-- tools/common.py, executor.py and client.py together: the tools on the executor, and the executor on
-- the client. Each call acts on the state that the calls before it left.
use prisma_sdwan_mcp.Prelude.Int.{ℤ}
use native.Mathlib.Nat.{mul-suc}
use prisma_sdwan_mcp.Prelude.{
  length, ℕ, ◌+◌, ◌*◌, ◌≤◌, ◌≡◌, refl, ap, Bool, Option, none, some, [], ◌∷◌, arith,
}
use prisma_sdwan_mcp.Prelude.Text.{Text, codes}
use prisma_sdwan_mcp.Prelude.Result.{Result, err, ok}
use prisma_sdwan_mcp.Errors.{Failure}
use prisma_sdwan_mcp.Config.{Env}
use prisma_sdwan_mcp.Value.{Value, null, dict, Fields}
use prisma_sdwan_mcp.Executor.Dispatch.{Invoked, raised, returned, Executor, execute}
use prisma_sdwan_mcp.Executor.Binding.{SdkCall}
use prisma_sdwan_mcp.Executor.Bound.{scaled, Counted, execute-calls}
use prisma_sdwan_mcp.Tools.{Call, Log, Toolbox}
use prisma_sdwan_mcp.Tools.Calls.{Adds, fanout_limit}
use prisma_sdwan_mcp.Client.Bounds.{Counter, invoke-calls}
use prisma_sdwan_mcp.Tools.Core.Fanout.{AnyCall}
use prisma_sdwan_mcp.Tools.Core.Fanout.HealthView.{core_tools-Adds}
use prisma_sdwan_mcp.Tools.Core.Health.{get_device_health}
use prisma_sdwan_mcp.Tools.Core.Interfaces.{Mode, get_interfaces}
use prisma_sdwan_mcp.Tools.Core.Topology.{Query, get_topology}
use prisma_sdwan_mcp.Tools.Replies.{Paging}
use prisma_sdwan_mcp.Client.{max_attempts, World, Client, LoginError, invoke}

-- What `client.invoke` hands to the executor; an exception of `login` is a RuntimeError.
unfoldable pub invoked : {W : Type 0} → Result LoginError Value × Client W → Invoked × Client W
unfolding codes
invoked (ok v, c) = (returned v, c)
invoked (err e, c) = (raised (codes "RuntimeError"), c)

module _ {W : Type 0} (x : Executor (Client W)) (worlds : Text → Text → SdkCall → World W)
    (env : Env) where
  -- The executor whose SDK functions are called by the client.
  unfoldable pub over_client : Executor (Client W)
  unfolding invoked
  over_client = record x {
    sdk = record {
      has_namespace = x.sdk.has_namespace;
      method = x.sdk.method;
      invoke = λ namespace name call c. invoked (invoke (worlds namespace name call) env c);
    };
  }

module _ {S : Type 0} (x : Executor S) where
  unfoldable pub body_of : Option Fields → Value
  body_of none = null
  body_of (some fs) = dict fs

  unfoldable pub run_call : Call → S → Result Failure Value × S
  unfolding body_of codes
  run_call c s = execute x (codes c.action) c.paths (body_of c.body) s

  -- The state behind the calls of a log.
  unfoldable pub replay : Log → S → S
  replay [] s = s
  replay (c ∷ log) s = replay log (run_call c s).1

  -- The tools' view of the executor.
  unfoldable pub live : Toolbox → S → Toolbox
  live b s = record b { answer = λ log c. (run_call c (replay log s)).0 }

  module _ (k : Counted x) where
    replay-calls :
        (log : Log) (s : S) → k.calls (replay log s) ≤ k.calls s + k.most * 3 * length log
    unfolding replay run_call
    replay-calls [] s = omega arith
    replay-calls (c ∷ log) s =
        let one = execute-calls x k (codes c.action) c.paths (body_of c.body) s in
        let later = replay-calls log (run_call c s).1 in
        omega (arith, one, later, mul-suc (k.most * 3) (length log))

    -- The calls of a tool that starts with an empty log.
    pub tool-calls :
        {A : Type 0} (P : Call → Type 0) (n : ℕ) (m : Log → A × Log) (s : S)
        → Adds P n m
        → k.calls (replay (m []).1 s) ≤ k.calls s + k.most * 3 * n
    tool-calls P n m s adds =
        let (calls, whole, each, few) = adds.added [] in
        let most = replay-calls calls s in
        let le = scaled (k.most * 3) (length calls) n few in rw whole (omega (arith, most, le))

-- A count of the requests of the SDK functions, of which each world makes one where its function is
-- called and none otherwise.
pub record Requests {W : Type 0} (worlds : Text → Text → SdkCall → World W) : Type 0 where
  pub requests : W → ℕ
  pub counter : (namespace name : Text) (call : SdkCall) → Counter (worlds namespace name call)
  pub agree :
      (namespace name : Text) (call : SdkCall) (w : W)
      → (counter namespace name call).calls w ≡ requests w

module _ {W : Type 0} (x : Executor (Client W)) (worlds : Text → Text → SdkCall → World W)
    (env : Env) (q : Requests worlds) where
  invoked-world : (r : Result LoginError Value × Client W) → (invoked r).1 ≡ r.1
  unfolding invoked
  invoked-world (ok v, c) = refl
  invoked-world (err e, c) = refl

  requests_counted : Counted (over_client x worlds env)
  unfolding over_client
  requests_counted = record {
    calls = λ c. q.requests c.world;
    most = max_attempts;
    on_invoke = λ namespace name call c.
        let count = q.counter namespace name call in
        let r = invoke (worlds namespace name call) env c in
        omega (
          arith,
          ap (λ (d : Client W). q.requests d.world) (invoked-world r),
          q.agree namespace name call r.1.world,
          q.agree namespace name call c.world,
          invoke-calls (worlds namespace name call) env count c,
        );
  }

  -- Whatever the SDK and the controller answer, the calls of the executor that get_interfaces or
  -- get_topology makes for one call of the tool, those of the resolver aside, make at most 12 requests
  -- for one call more than the ceiling of the fan-out, and those of get_device_health for four more, if
  -- a call of an SDK function is one request and nothing else makes one.
  pub core_tools-requests :
      (b : Toolbox) (c : Client W)
      → let y = over_client x worlds env in
        let t = live y b c in
        ((element : Text) (site : Option Text) (mode : Mode) (interface : Option Text)
            (paging : Paging)
          → q.requests (replay y (get_interfaces t element site mode interface paging []).1 c).world
            ≤ q.requests c.world + 12 * (1 + fanout_limit b.env))
        × ((query : Query) (paging : Paging)
            → q.requests (replay y (get_topology t query paging []).1 c).world
              ≤ q.requests c.world + 12 * (1 + fanout_limit b.env))
        × ((element : Text) (site : Option Text) (software interfaces : Bool) (limit : ℤ)
            → q.requests
                (replay y (get_device_health t element site software interfaces limit []).1 c).world
              ≤ q.requests c.world + 12 * (4 + fanout_limit b.env))
  unfolding live requests_counted
  core_tools-requests b c =
      let y = over_client x worlds env in
      let t = live y b c in
      let (first, second, third) = core_tools-Adds t in
      (
        λ e s m i p.
            tool-calls y requests_counted AnyCall (1 + fanout_limit b.env) _ c (first e s m i p),
        λ query p.
            tool-calls y requests_counted AnyCall (1 + fanout_limit b.env) _ c (second query p),
        λ e s f i l.
            tool-calls y requests_counted AnyCall (4 + fanout_limit b.env) _ c (third e s f i l),
      )
