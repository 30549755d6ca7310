-- ===== src/Runner/Types.antt =====
-- The data of the runner: errors, servers, containers and the command.
use servion.Base.{ℕ, String, Bool, List, Option, ◌⊎◌}

-- An error; `addr_in_use` is errors.Is(err, syscall.EADDRINUSE).
pub record Error : Type 0 where
  pub message : String
  pub addr_in_use : Bool

-- What Run reports.
pub data RunError : Type 0 where
  -- The logger or the container of the command fails.
  init_failed : Error → RunError
  -- The container of a server fails.
  creation_failed : Error → RunError
  -- A bean that is no server, or that takes no injection.
  invalid_server : Error → RunError
  no_servers : RunError
  -- "no server could bind (%d of %d failed)%s: %w"
  none_bound : ℕ → ℕ → String → List Error → RunError
  -- What g.Wait gives.
  serve_failed : Error → RunError
  -- A panic that PanicToError caught.
  panic_failed : Error → RunError
  -- The panic, and what the containers report when they are closed.
  joined : List Error → RunError
  -- cligo.ErrRepeatRun
  repeat_run : RunError

-- api.go, Server: what the runner calls itself.
pub record Server (S : Type 0) : Type 0 where
  pub bind : S → S × Option Error

-- A line on stderr.
pub data Line : Type 0 where
  warning : Error → Line
  degraded : ℕ → ℕ → Line

-- What a pass of bindServers over the servers leaves.
pub record Binding (S : Type 0) : Type 0 where
  pub bound : List (Server S)
  pub bind_errs : List Error
  pub stderr : List Line

-- A container of a server: its servers of both classes, each usable or an error, and Close. What
-- is injected into an *http.Server may change the state.
pub record Container (S : Type 0) : Type 0 where
  pub servers : List (Error ⊎ Server S)
  pub http_servers : List (S → S × (Error ⊎ Server S))
  pub close : S → S × Option Error

-- The container of the program, and how its children are made.
pub record Core (S : Type 0) : Type 0 where
  pub self : Container S
  pub children : List (S → S × (Error ⊎ Container S))

-- A function that returns, or panics.
pub data Outcome : Type 0 where
  returned : Option RunError → Outcome
  panicked : Error → Outcome

-- The callback of doWithServers.
abbrev pub Body : Type 0 → Type 0
Body S = List (Server S) → S → S × Outcome

-- What the run command uses: a logger if the container has none, the container extended by the
-- command's beans, and the runtime's Restarting.
pub record Command (S : Type 0) : Type 0 where
  pub new_logger : S → S × Option Error
  pub extend : S → S × (Error ⊎ Core S)
  pub restarting : S → Bool
