-- ===== src/Runtime/Examples.antt =====
-- The theorems of the runtime at a concrete interleaving.
use servion.Base.{true, false, ◌≡◌, refl}
use servion.Runtime.{
  State, start, call_shutdown, advance, Reachable, started, stepped, called, advanced, done,
}
use servion.Runtime.Once.{Consistent, shutdown-Consistent, shutdown_completes}

-- A restart is asked for, runs two statements, and a stop is asked for.
abbrev contended : State
contended = call_shutdown false (advance (advance (call_shutdown true start)))

contended-Reachable : Reachable contended
contended-Reachable =
    stepped (stepped (stepped (stepped started (called true _)) (advanced _)) (advanced _))
      (called false _)

shutdown-Consistent_example : Consistent contended
shutdown-Consistent_example = shutdown-Consistent contended contended-Reachable

shutdown_completes_example :
    let s = advance (advance (advance (advance contended))) in
    (done s.runtime ≡ true) × (s.runtime.restarting ≡ true)
unfolding call_shutdown advance
shutdown_completes_example = shutdown_completes contended true contended-Reachable refl
