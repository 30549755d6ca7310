-- ===== src/Serving/Progress.antt =====
-- The group comes to an end once groupCtx is done.
use servion.Base.{
  ◌+◌, ◌*◌, ◌≤◌, ℕ, zero, suc, Bool, true, false, List, [], ◌∷◌, Option, none, some, ◌≡◌, ◌≢◌, ◌⊎◌,
  inl, inr, refl, any, arith, if◌then◌else◌, Bool-cases, Option-cases,
}
use servion.Runner.{Error}
use servion.Runtime.{State, call_shutdown, advance, run_statement, done, Phase, called, advanced}
use servion.Runtime
use servion.Serving.{
  Serve, running, ended, Shutdown, not_asked, asked, closed, Slot, slot, is_running, is_unasked,
  is_asked, is_pending, end_serve, ask, close, Change, here, there, ChangeFirst, first, later,
  Group, Cancelled, begin, Outside, runtime_moved, signalled, aborted, Inside, served, woke,
  spawned, shut, waited, Reachable, begun, outside, inside,
}
use servion.Serving.Cancels.{Outside-Cancelled, Inside-Cancelled}

abbrev serve_weight : Serve → ℕ
serve_weight running = 1
serve_weight (ended result) = 0

abbrev shutdown_weight : Shutdown → ℕ
shutdown_weight not_asked = 2
shutdown_weight asked = 1
shutdown_weight closed = 0

abbrev weight : Slot → ℕ
weight (slot v c) = serve_weight v + shutdown_weight c

abbrev total : List Slot → ℕ
total [] = 0
total (x ∷ xs) = weight x + total xs

abbrev waiting : Option (Option Error) → ℕ
waiting none = 1
waiting (some e) = 0

-- How many steps the group's goroutines have before them.
abbrev pub steps_left : Group → ℕ
steps_left s = total s.slots + ((if s.watcher then 0 else 1) + waiting s.result)

-- The server is closed, so that its Serve is about to return.
abbrev pub is_closing : Slot → Bool
is_closing (slot running closed) = true
is_closing (slot _ _) = false

-- The slot that changes.
abbrev pub changed :
    {test : Slot → Bool} {f : Slot → Slot} {xs ys : List Slot} → Change test f xs ys → Slot
changed (here x xs e) = x
changed (there x c) = changed c

-- A step of the group that waits for no one outside: if a Serve returns, its server was closed.
abbrev pub Prompt : {s s' : Group} → Inside s s' → Type 0
Prompt (served result c) = is_closing (changed c) ≡ true
Prompt (woke k h) = Unit
Prompt (spawned h c) = Unit
Prompt (shut result c) = Unit
Prompt (waited h i) = Unit

-- A run with that many steps of the group's own goroutines.
pub data Run (s : Group) : ℕ → Group → Type 0 where
  stay : Run s 0 s
  by_others : {k : ℕ} {t t' : Group} → Run s k t → Outside t t' → Run s k t'
  by_group : {k : ℕ} {t t' : Group} → Run s k t → Inside t t' → Run s (suc k) t'

module _ {test : Slot → Bool} {f : Slot → Slot} where
  total-Change :
      ((x : Slot) → test x ≡ true → suc (weight (f x)) ≡ weight x)
      → {xs ys : List Slot} → Change test f xs ys
      → suc (total ys) ≡ total xs
  total-Change h (here x xs e) = omega (arith, h x e)
  total-Change h (there x c) = omega (arith, total-Change h c)

  total-ChangeFirst :
      ((x : Slot) → test x ≡ true → suc (weight (f x)) ≡ weight x)
      → {xs ys : List Slot} → ChangeFirst test f xs ys
      → suc (total ys) ≡ total xs
  total-ChangeFirst h (first x xs e) = omega (arith, h x e)
  total-ChangeFirst h (later x e c) = omega (arith, total-ChangeFirst h c)

  Change-of_any : (xs : List Slot) → any test xs ≡ true → (ys : List Slot) × Change test f xs ys
  Change-of_any [] e = cc
  Change-of_any (x ∷ xs) e = elim (Bool-cases (test x)) [
    | inl t ↦ (f x ∷ xs, here x xs t)
    | inr t ↦ let (ys, c) = Change-of_any xs (rw t at e) in (x ∷ ys, there x c)
  ]

  ChangeFirst-of_any :
      (xs : List Slot) → any test xs ≡ true → (ys : List Slot) × ChangeFirst test f xs ys
  ChangeFirst-of_any [] e = cc
  ChangeFirst-of_any (x ∷ xs) e = elim (Bool-cases (test x)) [
    | inl t ↦ (f x ∷ xs, first x xs t)
    | inr t ↦ let (ys, c) = ChangeFirst-of_any xs (rw t at e) in (x ∷ ys, later x t c)
  ]

weight-end_serve :
    (result : Option Error) (x : Slot)
    → is_running x ≡ true
    → suc (weight (end_serve result x)) ≡ weight x
weight-end_serve result (slot running c) e = omega arith
weight-end_serve result (slot (ended r) c) e = cc

weight-ask : (x : Slot) → is_unasked x ≡ true → suc (weight (ask x)) ≡ weight x
weight-ask (slot v not_asked) e = omega arith
weight-ask (slot v asked) e = cc
weight-ask (slot v closed) e = cc

weight-close : (x : Slot) → is_asked x ≡ true → suc (weight (close x)) ≡ weight x
weight-close (slot v not_asked) e = cc
weight-close (slot v asked) e = omega arith
weight-close (slot v closed) e = cc

steps_left-Outside : {s s' : Group} → Outside s s' → steps_left s' ≡ steps_left s
steps_left-Outside (runtime_moved st) = refl
steps_left-Outside (signalled hangup h) = refl
steps_left-Outside (aborted d h) = refl

steps_left-Inside : {s s' : Group} → Inside s s' → suc (steps_left s') ≡ steps_left s
steps_left-Inside (served result c) = omega (arith, total-Change (weight-end_serve result) c)
steps_left-Inside {s} (woke k h) = rw h (omega arith)
steps_left-Inside (spawned h c) = omega (arith, total-ChangeFirst weight-ask c)
steps_left-Inside (shut result c) = omega (arith, total-Change weight-close c)
steps_left-Inside {s} (waited h i) = rw h (omega arith)

steps_left-begin : (n : ℕ) (runtime : Runtime.State) → steps_left (begin n runtime) ≡ 3 * n + 2
steps_left-begin zero runtime = refl
steps_left-begin (suc n) runtime = omega (arith, steps_left-begin n runtime)

steps_left-Reachable : {n : ℕ} {s : Group} → Reachable n s → steps_left s ≤ 3 * n + 2
steps_left-Reachable {n} (begun runtime r) = omega (arith, steps_left-begin n runtime)
steps_left-Reachable (outside r st) = omega (arith, steps_left-Reachable r, steps_left-Outside st)
steps_left-Reachable (inside r st) = omega (arith, steps_left-Reachable r, steps_left-Inside st)

Run-steps_left : {s s' : Group} {k : ℕ} → Run s k s' → k + steps_left s' ≡ steps_left s
Run-steps_left stay = omega arith
Run-steps_left (by_others r st) = omega (arith, Run-steps_left r, steps_left-Outside st)
Run-steps_left (by_group r st) = omega (arith, Run-steps_left r, steps_left-Inside st)

Run-Cancelled : {s s' : Group} {k : ℕ} → Run s k s' → Cancelled s → Cancelled s'
Run-Cancelled stay c = c
Run-Cancelled (by_others {t = t} r st) c = Outside-Cancelled {s = t} st (Run-Cancelled r c)
Run-Cancelled (by_group {t = t} r st) c = Inside-Cancelled {s = t} st (Run-Cancelled r c)

none_pending :
    (xs : List Slot)
    → any is_unasked xs ≡ false
    → any is_asked xs ≡ false
    → any is_closing xs ≡ false
    → any is_pending xs ≡ false
none_pending [] u a c = refl
none_pending (slot v not_asked ∷ xs) u a c = cc
none_pending (slot v asked ∷ xs) u a c = cc
none_pending (slot running closed ∷ xs) u a c = cc
none_pending (slot (ended r) closed ∷ xs) u a c = none_pending xs u a c

-- A Serve whose server was closed may return.
closing-of_any :
    (result : Option Error) (xs : List Slot)
    → any is_closing xs ≡ true
    → (ys : List Slot) × (c : Change is_running (end_serve result) xs ys) × (is_closing (changed c)
        ≡ true)
closing-of_any result [] e = cc
closing-of_any result (slot running closed ∷ xs) e = (_, here (slot running closed) xs refl, refl)
closing-of_any result (slot running not_asked ∷ xs) e =
    let (ys, c, k) = closing-of_any result xs e in (_, there (slot running not_asked) c, k)
closing-of_any result (slot running asked ∷ xs) e =
    let (ys, c, k) = closing-of_any result xs e in (_, there (slot running asked) c, k)
closing-of_any result (slot (ended r) d ∷ xs) e =
    let (ys, c, k) = closing-of_any result xs e in (_, there (slot (ended r) d) c, k)

-- The group's own goroutines have a step that waits for no one outside.
abbrev pub Moves : Group → Type 0
Moves s = (s' : Group) × (st : Inside s s') × Prompt st

watcher-Moves : (s : Group) → s.watcher ≡ true → s.result ≡ none → Moves s
watcher-Moves s w r = elim (Bool-cases (any is_unasked s.slots)) [
  | inl u ↦ let (ys, c) = ChangeFirst-of_any s.slots u in (_, spawned w c, tt)
  | inr u ↦ elim (Bool-cases (any is_asked s.slots)) [
    | inl a ↦ let (ys, c) = Change-of_any s.slots a in (_, shut none c, tt)
    | inr a ↦ elim (Bool-cases (any is_closing s.slots)) [
      | inl k ↦ let (ys, c, q) = closing-of_any none s.slots k in (_, served none c, q)
      | inr k ↦ (_, waited r (none_pending s.slots u a k), tt)
    ]
  ]
]

Cancelled-Moves : (s : Group) → Cancelled s → (s.result ≢ none) ⊎ Moves s
Cancelled-Moves s c = elim (Option-cases s.result) [
  | inl r ↦ elim (Bool-cases s.watcher) [
    | inl w ↦ inr (watcher-Moves s w r)
    | inr w ↦ inr (_, woke c w, tt)
  ]
  | inr (e, r) ↦ inl (λ n. cc)
]

-- Once the runtime of n servers is done or a member of their group failed, the group's goroutines
-- take at most 3n + 2 more steps, in whatever order they and the rest of the program run; and as
-- long as g.Wait has not returned, one of the steps of the group is possible, and it is not that a
-- Serve returns by itself: if it is that a Serve returns, its server was shut down.
pub serving_ends :
    (n : ℕ) (s : Group)
    → Reachable n s
    → Cancelled s
    → {k : ℕ} (s' : Group) → Run s k s'
    → (k ≤ 3 * n + 2) × ((s'.result ≢ none) ⊎ ((s'' : Group) × (st : Inside s' s'') × Prompt st))
serving_ends n s r c s' run = (
  omega (arith, steps_left-Reachable r, Run-steps_left run),
  Cancelled-Moves s' (Run-Cancelled run c),
)
