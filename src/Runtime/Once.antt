-- ===== src/Runtime/Once.antt =====
-- What a reader of the runtime may see, whenever it looks.

use servion.Base.{
  ℕ, zero, suc, ◌⊎◌, inl, inr, String, Bool, true, false, List, [], ◌∷◌, ◌++◌, Option, none, some,
  ◌≡◌, ◌≢◌, ◌≤◌, refl, ap, arith,
}
use servion.Runtime.{
  Runtime, active, err, done, Phase, idle, store_restarting, store_shutting_down, store_err, close,
  finished, run_statement, State, enter, call_shutdown, advance, called, advanced, Reachable,
  started, stepped,
}

-- The first call, if there was one.
abbrev pub first_call : List Bool → Option Bool
first_call [] = none
first_call (restart ∷ _) = some restart

-- The three fields that a reader waits for.
abbrev Fields : Runtime → Option String → Bool → ℕ → Type 0
Fields t e down closes = (t.runtime_err ≡ e) × (t.shutting_down ≡ down) × (t.closes ≡ closes)

-- What holds when the given statement comes next.
abbrev At : Phase → Runtime → Option Bool → Type 0
At idle t first = (first ≡ none) × Fields t none false 0
At (store_restarting restart) t first = (first ≡ some restart) × Fields t none false 0
At store_shutting_down t first = (first ≡ some t.restarting) × Fields t none false 0
At store_err t first = (first ≡ some t.restarting) × Fields t none true 0
At close t first = (first ≡ some t.restarting) × Fields t (some "closed") true 0
At finished t first = (first ≡ some t.restarting) × Fields t (some "closed") true 1

At-run_statement :
    (phase : Phase) (t : Runtime) (first : Option Bool)
    → At phase t first
    → At (run_statement phase t).0 (run_statement phase t).1 first
unfolding run_statement
At-run_statement idle t first p = p
At-run_statement (store_restarting r) t first p = p
At-run_statement store_shutting_down t first (f, (e, d, c)) = (f, (e, refl, c))
At-run_statement store_err t first (f, (e, d, c)) = (f, (refl, d, c))
At-run_statement close t first (f, (e, d, c)) = (f, (e, d, ap suc c))
At-run_statement finished t first p = p

first_call-append :
    (calls : List Bool) (restart b : Bool)
    → first_call calls ≡ some b
    → first_call (calls ++ restart ∷ []) ≡ some b
first_call-append [] restart b f = cc
first_call-append (c ∷ calls) restart b f = f

first_call-new :
    (calls : List Bool) (restart : Bool)
    → first_call calls ≡ none
    → first_call (calls ++ restart ∷ []) ≡ some restart
first_call-new [] restart f = refl
first_call-new (c ∷ calls) restart f = cc

At-call_shutdown :
    (phase : Phase) (t : Runtime) (calls : List Bool) (restart : Bool)
    → At phase t (first_call calls)
    → At (enter phase restart) t (first_call (calls ++ restart ∷ []))
At-call_shutdown idle t calls restart (f, p) = (first_call-new calls restart f, p)
At-call_shutdown (store_restarting r) t calls restart (f, p) =
    (first_call-append calls restart _ f, p)
At-call_shutdown store_shutting_down t calls restart (f, p) =
    (first_call-append calls restart _ f, p)
At-call_shutdown store_err t calls restart (f, p) = (first_call-append calls restart _ f, p)
At-call_shutdown close t calls restart (f, p) = (first_call-append calls restart _ f, p)
At-call_shutdown finished t calls restart (f, p) = (first_call-append calls restart _ f, p)

Reachable-At : {s : State} → Reachable s → At s.phase s.runtime (first_call s.calls)
unfolding call_shutdown advance
Reachable-At started = (refl, (refl, refl, refl))
Reachable-At (stepped r (called restart s)) =
    At-call_shutdown s.phase s.runtime s.calls restart (Reachable-At r)
Reachable-At (stepped r (advanced s)) =
    At-run_statement s.phase s.runtime (first_call s.calls) (Reachable-At r)

-- What one look at the runtime tells.
pub record Consistent (s : State) : Type 0 where
  -- Behind Done, Err gives the error and the runtime is not active.
  pub done_err : done s.runtime ≡ true → err s.runtime ≡ some "closed"
  pub err_inactive : err s.runtime ≢ none → active s.runtime ≡ false
  -- A runtime that is not active tells by Restarting what the first call asked.
  pub inactive_restarting :
      active s.runtime ≡ false → first_call s.calls ≡ some s.runtime.restarting
  pub closed_once : s.runtime.closes ≤ 1

-- Before the first store that a reader can see.
quiet-Consistent :
    (phase : Phase) (t : Runtime) (calls : List Bool)
    → Fields t none false 0
    → Consistent (record { phase = phase; runtime = t; calls = calls })
unfolding done err active
quiet-Consistent phase t calls (e, d, c) = record {
  done_err = λ h. ground arith;
  err_inactive = λ h. absurd (h e);
  inactive_restarting = λ h. ground arith;
  closed_once = ground arith;
}

stopped-Consistent :
    (phase : Phase) (t : Runtime) (calls : List Bool)
    → first_call calls ≡ some t.restarting
    → t.shutting_down ≡ true
    → (t.closes ≡ 0) ⊎ ((t.closes ≡ 1) × (t.runtime_err ≡ some "closed"))
    → Consistent (record { phase = phase; runtime = t; calls = calls })
unfolding done err active
stopped-Consistent phase t calls f d c = record {
  done_err = λ h. ground arith;
  err_inactive = λ h. ground arith;
  inactive_restarting = λ h. f;
  closed_once = ground arith;
}

At-Consistent :
    (phase : Phase) (t : Runtime) (calls : List Bool)
    → At phase t (first_call calls)
    → Consistent (record { phase = phase; runtime = t; calls = calls })
At-Consistent idle t calls (f, p) = quiet-Consistent _ t calls p
At-Consistent (store_restarting r) t calls (f, p) = quiet-Consistent _ t calls p
At-Consistent store_shutting_down t calls (f, p) = quiet-Consistent _ t calls p
At-Consistent store_err t calls (f, (e, d, c)) = stopped-Consistent _ t calls f d (inl c)
At-Consistent close t calls (f, (e, d, c)) = stopped-Consistent _ t calls f d (inl c)
At-Consistent finished t calls (f, (e, d, c)) = stopped-Consistent _ t calls f d (inr (c, e))

-- However the calls of Shutdown and the stores of the first interleave, at every moment: when Done
-- is closed, Err is "closed"; when Err is set, the runtime is not active; when it is not active,
-- Restarting is what the first call asked; and the channel of Done is closed once at most.
pub shutdown-Consistent : (s : State) → Reachable s → Consistent s
shutdown-Consistent s r = At-Consistent s.phase s.runtime s.calls (Reachable-At r)

advance_n : ℕ → State → State
advance_n zero s = s
advance_n (suc n) s = advance_n n (advance s)

At-completes :
    (phase : Phase) (t : Runtime) (calls : List Bool) (b : Bool)
    → first_call calls ≡ some b
    → At phase t (first_call calls)
    → let s' = advance_n 4 (record { phase = phase; runtime = t; calls = calls }) in
      (done s'.runtime ≡ true) × (s'.runtime.restarting ≡ b)
unfolding advance_n advance run_statement done
At-completes idle t calls b g (f, p) = cc
At-completes (store_restarting r) t calls b g (f, (e, d, c)) = (ground arith, ground arith)
At-completes store_shutting_down t calls b g (f, (e, d, c)) = (ground arith, ground arith)
At-completes store_err t calls b g (f, (e, d, c)) = (ground arith, ground arith)
At-completes close t calls b g (f, (e, d, c)) = (ground arith, ground arith)
At-completes finished t calls b g (f, (e, d, c)) = (ground arith, ground arith)

-- Once Shutdown was called, four statements of the first call are enough to close Done, and then
-- Restarting is what that call asked, whatever later calls ask.
pub shutdown_completes :
    (s : State) (b : Bool)
    → Reachable s
    → first_call s.calls ≡ some b
    → let s' = advance (advance (advance (advance s))) in
      (done s'.runtime ≡ true) × (s'.runtime.restarting ≡ b)
unfolding advance_n
shutdown_completes s b r f = At-completes s.phase s.runtime s.calls b f (Reachable-At r)
