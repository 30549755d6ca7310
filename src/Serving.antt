-- ===== src/Serving.antt =====
-- utils.go, runServers behind the binding of the servers: the goroutines of its errgroup, the one
-- that shuts all servers down and the one that waits for a signal. Each step is what one goroutine
-- does next, and steps of different goroutines come in any order. A server's Serve may return at
-- any time; the runtime's own steps are those of the module Runtime.
mod Changes
mod Cancels
pub mod Outcome
pub mod Progress
mod Examples
use servion.Base.{
  ℕ, zero, suc, Bool, true, false, ◌||◌, List, [], ◌∷◌, Option, none, some, ◌≡◌, ◌≢◌, ◌⊎◌, any,
  replicate,
}
use servion.Runner.{Error}
use servion.Runtime.{State, start, call_shutdown, done}
use servion.Runtime

-- g.Go(server.Serve)
pub data Serve : Type 0 where
  running : Serve
  ended : Option Error → Serve

-- g.Go(server.Shutdown)
pub data Shutdown : Type 0 where
  not_asked : Shutdown
  asked : Shutdown
  closed : Shutdown

-- One of boundServers, with its two members of the group.
pub data Slot : Type 0 where
  slot : Serve → Shutdown → Slot

abbrev pub is_running : Slot → Bool
is_running (slot running _) = true
is_running (slot (ended _) _) = false

abbrev pub is_unasked : Slot → Bool
is_unasked (slot _ not_asked) = true
is_unasked (slot _ _) = false

abbrev pub is_asked : Slot → Bool
is_asked (slot _ asked) = true
is_asked (slot _ _) = false

-- A member that g.Wait waits for.
abbrev pub is_pending : Slot → Bool
is_pending x = is_running x || is_asked x

abbrev pub end_serve : Option Error → Slot → Slot
end_serve result (slot _ c) = slot (ended result) c

abbrev pub ask : Slot → Slot
ask (slot v _) = slot v asked

abbrev pub close : Slot → Slot
close (slot v _) = slot v closed

-- One slot that passes the test is changed.
pub data Change (test : Slot → Bool) (f : Slot → Slot) : List Slot → List Slot → Type 0 where
  here : (x : Slot) (xs : List Slot) → test x ≡ true → Change test f (x ∷ xs) (f x ∷ xs)
  there : (x : Slot) {xs ys : List Slot} → Change test f xs ys → Change test f (x ∷ xs) (x ∷ ys)

-- The first slot that passes the test is changed.
pub data ChangeFirst (test : Slot → Bool) (f : Slot → Slot) : List Slot → List Slot → Type 0 where
  first : (x : Slot) (xs : List Slot) → test x ≡ true → ChangeFirst test f (x ∷ xs) (f x ∷ xs)
  later :
      (x : Slot) {xs ys : List Slot}
      → test x ≡ false
      → ChangeFirst test f xs ys
      → ChangeFirst test f (x ∷ xs) (x ∷ ys)

pub record Group : Type 0 where
  pub runtime : Runtime.State
  pub slots : List Slot
  -- The first error of a member.
  pub err : Option Error
  -- The goroutine that waits for groupCtx passed its select.
  pub watcher : Bool
  -- The goroutine that waits for a signal called Shutdown.
  pub handler : Bool
  -- What g.Wait returned.
  pub result : Option (Option Error)

-- errgroup keeps the first error.
abbrev pub keep_first : Option Error → Option Error → Option Error
keep_first none e = e
keep_first (some e) _ = some e

-- groupCtx is done: its parent, the runtime, is; a member failed; or g.Wait returned.
abbrev pub Cancelled : Group → Type 0
Cancelled s = (done s.runtime.runtime ≡ true) ⊎ ((s.err ≢ none) ⊎ (s.result ≢ none))

abbrev pub begin : ℕ → Runtime.State → Group
begin n runtime = record {
  runtime = runtime;
  slots = replicate n (slot running not_asked);
  err = none;
  watcher = false;
  handler = false;
  result = none;
}

-- The steps of the runtime and of the world.
pub data Outside (s : Group) : Group → Type 0 where
  runtime_moved :
      {runtime : Runtime.State}
      → Runtime.Step s.runtime runtime
      → Outside s (record s { runtime = runtime })
  -- SIGINT, SIGTERM or, for a restart, SIGHUP.
  signalled :
      (hangup : Bool)
      → s.handler ≡ false
      → Outside s (record s { handler = true; runtime = call_shutdown hangup s.runtime })
  aborted :
      done s.runtime.runtime ≡ true
      → s.handler ≡ false
      → Outside s (record s { handler = true; runtime = call_shutdown false s.runtime })

-- The steps of the group's own goroutines.
pub data Inside (s : Group) : Group → Type 0 where
  served :
      {slots : List Slot} (result : Option Error)
      → Change is_running (end_serve result) s.slots slots
      → Inside s (record s { slots = slots; err = keep_first s.err result })
  woke : Cancelled s → s.watcher ≡ false → Inside s (record s { watcher = true })
  spawned :
      {slots : List Slot}
      → s.watcher ≡ true
      → ChangeFirst is_unasked ask s.slots slots
      → Inside s (record s { slots = slots })
  shut :
      {slots : List Slot} (result : Option Error)
      → Change is_asked close s.slots slots
      → Inside s (record s { slots = slots; err = keep_first s.err result })
  waited :
      s.result ≡ none → any is_pending s.slots ≡ false → Inside s (record s { result = some s.err })

pub data Reachable (n : ℕ) : Group → Type 0 where
  begun : (runtime : Runtime.State) → Runtime.Reachable runtime → Reachable n (begin n runtime)
  outside : {s s' : Group} → Reachable n s → Outside s s' → Reachable n s'
  inside : {s s' : Group} → Reachable n s → Inside s s' → Reachable n s'
