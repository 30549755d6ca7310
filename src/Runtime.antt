-- ===== src/Runtime.antt =====
-- runtime.go: the shutdown signal of the program. A call of Shutdown runs the four stores of its
-- sync.Once one at a time, so that every reader may look between two of them.
pub mod Once
pub mod Paths
mod Examples
use Prim.Native.String
use servion.Base.{
  ℕ, suc, String, Bool, false, true, not, ◌==◌, List, [], ◌∷◌, ◌++◌, Option, none, some,
}

-- implRuntime, its fields that change behind PostConstruct.
pub record Runtime : Type 0 where
  pub runtime_err : Option String
  pub shutting_down : Bool
  pub restarting : Bool
  -- How often shutdownCh was closed: a second time panics.
  pub closes : ℕ

-- NewRuntime
abbrev pub new_runtime : Runtime
new_runtime = record { runtime_err = none; shutting_down = false; restarting = false; closes = 0 }

unfoldable pub active : Runtime → Bool
active t = not t.shutting_down

-- Err
unfoldable pub err : Runtime → Option String
err t = t.runtime_err

-- Done is closed.
unfoldable pub done : Runtime → Bool
done t = not (t.closes == 0)

-- The statement that the function of shutdownOnce runs next.
pub data Phase : Type 0 where
  idle : Phase
  store_restarting : Bool → Phase
  store_shutting_down : Phase
  store_err : Phase
  close : Phase
  finished : Phase

-- The body of Shutdown, one statement.
unfoldable pub run_statement : Phase → Runtime → Phase × Runtime
run_statement idle t = (idle, t)
run_statement (store_restarting restart) t =
    (store_shutting_down, record t { restarting = restart })
run_statement store_shutting_down t = (store_err, record t { shutting_down = true })
run_statement store_err t = (close, record t { runtime_err = some "closed" })
run_statement close t = (finished, record t { closes = suc t.closes })
run_statement finished t = (finished, t)

-- The state of the once and of the runtime; the calls that came, first to last.
pub record State : Type 0 where
  pub phase : Phase
  pub runtime : Runtime
  pub calls : List Bool

abbrev pub start : State
start = record { phase = idle; runtime = new_runtime; calls = [] }

abbrev pub enter : Phase → Bool → Phase
enter idle restart = store_restarting restart
enter phase _ = phase

-- A goroutine calls Shutdown: the first call enters the once, any other waits or passes.
unfoldable pub call_shutdown : Bool → State → State
call_shutdown restart s = record s {
  phase = enter s.phase restart;
  calls = s.calls ++ restart ∷ [];
}

-- The goroutine in the once runs one statement.
unfoldable pub advance : State → State
unfolding run_statement
advance s =
    let (phase, runtime) = run_statement s.phase s.runtime in
    record s { phase = phase; runtime = runtime }

pub data Step : State → State → Type 0 where
  called : (restart : Bool) (s : State) → Step s (call_shutdown restart s)
  advanced : (s : State) → Step s (advance s)

-- What calls and statements, interleaved in any order, reach.
pub data Reachable : State → Type 0 where
  started : Reachable start
  stepped : {s s' : State} → Reachable s → Step s s' → Reachable s'
