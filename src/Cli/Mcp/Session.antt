-- ===== src/Cli/Mcp/Session.antt =====
-- cmd/sandbox/mcp.go over pkg/sandbox/pool.go: `sandbox mcp` from its flags to its end, with the calls
-- of its tools one after the other.
use podman_sandbox_runner.Base.{
  ℕ, zero, suc, ℤ, Bool, true, false, ◌⊎◌, inl, inr, Option, none, some, List, [], ◌∷◌, Text,
  if◌then◌else◌,
}
use podman_sandbox_runner.Sandbox.{Opts, Ran, Error}
use podman_sandbox_runner.Pool.Ops.{
  PoolImpl, Pool, Context, Job, Select, run, reap_idle, close, new_pool, empty_pool,
}
use podman_sandbox_runner.Cli.Tools.{RunSandboxInput, RunScriptInput}
use podman_sandbox_runner.Cli.Tools.Keeps.{Keeping, run_sandbox_keeps, run_script_keeps}
use podman_sandbox_runner.Cli.Tools.Server.{
  Handler, takes_sandbox, takes_script, Tool, McpServer, build_mcp_server,
}
use podman_sandbox_runner.Cli.Mcp.{McpFlags, ServerEnd, Host, run_mcp}

-- What comes to a server: a call of the tool at a position of its list, at a time and with the case
-- of the select statement if it has to wait for a holder, or a tick of the pool's reaper.
pub data McpEvent : Type 0 where
  call : ℕ → Context → RunSandboxInput ⊎ RunScriptInput → ℕ → Select → McpEvent
  tick : ℕ → McpEvent

module _ {S : Type 0} where
  -- The SDK checks the arguments against the schema of the tool: no others come to a handler.
  abbrev handled : Handler S → Context → RunSandboxInput ⊎ RunScriptInput → S → S
  handled (takes_sandbox h) ctx (inl i) s = (h ctx i s).1
  handled (takes_script h) ctx (inr i) s = (h ctx i s).1
  handled _ ctx i s = s

  abbrev picked : List (Tool S) → ℕ → Context → RunSandboxInput ⊎ RunScriptInput → S → S
  picked [] k ctx i s = s
  picked (t ∷ ts) zero ctx i s = handled t.handler ctx i s
  picked (t ∷ ts) (suc k) ctx i s = picked ts k ctx i s

module _ {I W : Type 0} (ops : PoolImpl I W)
    (sandbox_run : Context → Opts → Option Text → W → Ran × W) (sprint : ℤ → Text) (version : Text)
    (message : Error → Text) where
  -- A one-shot run beside whatever pool there is.
  abbrev one_shot : Context → Opts → Option Text → Pool I W → Ran × Pool I W
  one_shot ctx o stdin p =
      let (r, w) = sandbox_run ctx o stdin p.world in (r, record p { world = w })

  abbrev server : Opts → Bool → ℕ → Select → McpServer (Pool I W)
  server base pooled now sel =
      build_mcp_server (λ ctx job p. run ops ctx now sel job p) one_shot sprint version base pooled

  unfoldable pub receives : Opts → Bool → Pool I W → McpEvent → Pool I W
  receives base pooled p (call k ctx i now sel) =
      picked (server base pooled now sel).tools k ctx i p
  receives base pooled p (tick now) = if pooled then reap_idle ops now p else p

  unfoldable pub receives_all : Opts → Bool → Pool I W → List McpEvent → Pool I W
  receives_all base pooled p [] = p
  receives_all base pooled p (e ∷ es) = receives_all base pooled (receives base pooled p e) es

  abbrev is_pooled : Option (Unit {0}) → Bool
  is_pooled none = false
  is_pooled (some _) = true

  -- The rest of the system around `runMCP`: the pool is part of the world, and the server takes the
  -- events before it ends in the way `end`.
  abbrev pub stdio : ℕ → List McpEvent → ServerEnd → Host (Unit {0}) (Pool I W)
  stdio now events end = record {
    new_pool = λ o cfg p. new_pool ops o cfg now p.world;
    close_pool = λ _ p. (close ops p).1;
    serve = λ o pool p. (end, receives_all o (is_pooled pool) p events);
    message = message;
  }

  -- The pool at the end of the process that starts in the world `w`; an empty one where none is made.
  unfoldable pub mcp_session : McpFlags → ℕ → List McpEvent → ServerEnd → W → Pool I W
  mcp_session flags now events end w =
      (run_mcp (stdio now events end) flags (
        empty_pool ops (record { min = flags.min; max = flags.max; idle_timeout = flags.idle })
          w)).1

module _ {I W : Type 0} (ops : PoolImpl I W)
    (sandbox_run : Context → Opts → Option Text → W → Ran × W) (sprint : ℤ → Text) (version : Text)
    (message : Error → Text) (Q : Pool I W → Type 0) where
  -- What the calls of the mode keep of a pool, whatever it is.
  abbrev pub Keeps : Bool → Type 0
  Keeps true =
      ((p : Pool I W) (ctx : Context) (now : ℕ) (sel : Select) (job : Job)
        → Q p
        → Q (run ops ctx now sel job p).1)
      × ((p : Pool I W) (now : ℕ) → Q p → Q (reap_idle ops now p))
  Keeps false =
      (p : Pool I W) (ctx : Context) (o : Opts) (stdin : Option Text)
      → Q p
      → Q (record p { world = (sandbox_run ctx o stdin p.world).1 })

  keeping :
      (pooled : Bool) (now : ℕ) (sel : Select) (ctx : Context) (p : Pool I W)
      → Keeps pooled
      → Q p
      → Keeping
          (λ ctx job p. run ops ctx now sel job p)
          (one_shot ops sandbox_run sprint version message)
          Q
          pooled
          ctx
          p
  keeping true now sel ctx p k v = λ job. k.0 p ctx now sel job v
  keeping false now sel ctx p k v = λ o stdin. k p ctx o stdin v

  receives_keeps :
      (base : Opts) (pooled : Bool) (p : Pool I W) (e : McpEvent)
      → Keeps pooled
      → Q p
      → Q (receives ops sandbox_run sprint version message base pooled p e)
  unfolding receives build_mcp_server
  receives_keeps base pooled p (call zero ctx (inl i) now sel) k v =
      run_sandbox_keeps _ _ Q base pooled ctx i p (keeping pooled now sel ctx p k v) v
  receives_keeps base pooled p (call zero ctx (inr i) now sel) k v = v
  receives_keeps base pooled p (call (suc zero) ctx (inl i) now sel) k v = v
  receives_keeps base pooled p (call (suc zero) ctx (inr i) now sel) k v =
      run_script_keeps _ _ Q base pooled ctx i p (keeping pooled now sel ctx p k v) v
  receives_keeps base pooled p (call (suc (suc n)) ctx i now sel) k v = v
  receives_keeps base true p (tick now) k v = k.1 p now v
  receives_keeps base false p (tick now) k v = v

  pub receives_all_keeps :
      (base : Opts) (pooled : Bool) (p : Pool I W) (events : List McpEvent)
      → Keeps pooled
      → Q p
      → Q (receives_all ops sandbox_run sprint version message base pooled p events)
  unfolding receives_all
  receives_all_keeps base pooled p [] k v = v
  receives_all_keeps base pooled p (e ∷ es) k v =
      receives_all_keeps base pooled
        (receives ops sandbox_run sprint version message base pooled p e) es k
        (receives_keeps base pooled p e k v)
