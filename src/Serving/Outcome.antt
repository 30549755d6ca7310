-- ===== src/Serving/Outcome.antt =====
-- What holds whenever one looks at the group, and what g.Wait returns.
use servion.Base.{
  ℕ, zero, suc, Bool, true, false, not, List, [], ◌∷◌, Option, none, some, ◌≡◌, ◌≢◌, inl, inr, refl,
  ap, ◌∙◌, any, All, replicate, Bool-cases,
}
use servion.Runner.{Error}
use servion.Runtime.{State, call_shutdown, advance, run_statement, done, Phase, called, advanced}
use servion.Runtime
use servion.Serving.{
  running, ended, not_asked, asked, closed, Slot, slot, is_running, is_unasked, is_asked,
  is_pending, end_serve, ask, close, Group, keep_first, Cancelled, begin, Outside, runtime_moved,
  signalled, aborted, Inside, served, woke, spawned, shut, waited, Reachable, begun, outside,
  inside,
}
use servion.Serving.Changes.{ChangeFirst-Change, Change-any, any-Change, All-Change, any_weaker}
use servion.Serving.Cancels.{Outside-Cancelled, Inside-Cancelled}

-- Shutdown of the server was handed to the group.
abbrev pub was_asked : Slot → Bool
was_asked x = not (is_unasked x)

-- Serve has not failed.
abbrev Clean : Slot → Type 0
Clean (slot running _) = Unit
Clean (slot (ended result) _) = result ≡ none

-- Serve returned, and without an error.
abbrev pub EndedWell : Slot → Type 0
EndedWell (slot running _) = ⊥
EndedWell (slot (ended result) _) = result ≡ none

or_none : Option (Option Error) → Option Error
or_none none = none
or_none (some e) = e

some-injective : {a b : Option Error} → some a ≡ some b → a ≡ b
unfolding or_none
some-injective e = ap or_none e

-- What holds in every state of the group.
record Inv (s : Group) : Type 0 where
  woken : s.watcher ≡ true → Cancelled s
  unasked : s.watcher ≡ false → any was_asked s.slots ≡ false
  clean : s.err ≡ none → All Clean s.slots
  stopped : s.result ≢ none → any is_running s.slots ≡ false
  nil : s.result ≡ some none → All Clean s.slots

Outside-Inv : {s s' : Group} → Outside s s' → Inv s → Inv s'
Outside-Inv {s} (runtime_moved st) v = record {
  woken = λ w. Outside-Cancelled {s = s} (runtime_moved st) (v.woken w);
  unasked = v.unasked;
  clean = v.clean;
  stopped = v.stopped;
  nil = v.nil;
}
Outside-Inv {s} (signalled hangup h) v = record {
  woken = λ w. Outside-Cancelled {s = s} (signalled hangup h) (v.woken w);
  unasked = v.unasked;
  clean = v.clean;
  stopped = v.stopped;
  nil = v.nil;
}
Outside-Inv {s} (aborted d h) v = record {
  woken = λ w. Outside-Cancelled {s = s} (aborted d h) (v.woken w);
  unasked = v.unasked;
  clean = v.clean;
  stopped = v.stopped;
  nil = v.nil;
}

keep_first-none :
    (e result : Option Error) → keep_first e result ≡ none → (e ≡ none) × (result ≡ none)
keep_first-none none result h = (refl, h)
keep_first-none (some x) result h = cc

end_serve-Clean :
    (result : Option Error) → result ≡ none → (x : Slot) → Clean x → Clean (end_serve result x)
end_serve-Clean result e (slot v c) h = e

close-Clean : (x : Slot) → Clean x → Clean (close x)
close-Clean (slot running c) h = tt
close-Clean (slot (ended r) c) h = h

ask-Clean : (x : Slot) → Clean x → Clean (ask x)
ask-Clean (slot running c) h = tt
ask-Clean (slot (ended r) c) h = h

was_asked-end_serve :
    (result : Option Error) (x : Slot) → was_asked (end_serve result x) ≡ was_asked x
was_asked-end_serve result (slot v not_asked) = refl
was_asked-end_serve result (slot v asked) = refl
was_asked-end_serve result (slot v closed) = refl

pub is_running-close : (x : Slot) → is_running (close x) ≡ is_running x
is_running-close (slot running c) = refl
is_running-close (slot (ended r) c) = refl

pub is_running-ask : (x : Slot) → is_running (ask x) ≡ is_running x
is_running-ask (slot running c) = refl
is_running-ask (slot (ended r) c) = refl

was_asked_of_is_asked : (x : Slot) → is_asked x ≡ true → was_asked x ≡ true
was_asked_of_is_asked (slot v not_asked) e = cc
was_asked_of_is_asked (slot v asked) e = refl
was_asked_of_is_asked (slot v closed) e = refl

is_pending_of_is_running : (x : Slot) → is_running x ≡ true → is_pending x ≡ true
is_pending_of_is_running x e = rw e

true-false : {b : Bool} → b ≡ true → b ≡ false → ⊥
true-false e f = cc

Inside-Inv : {s s' : Group} → Inside s s' → Inv s → Inv s'
Inside-Inv {s} (served result c) v = record {
  woken = λ w. Inside-Cancelled {s = s} (served result c) (v.woken w);
  unasked = λ w. any-Change was_asked (was_asked-end_serve result) c ∙ v.unasked w;
  clean = λ e.
      let (old, new) = keep_first-none s.err result e in
      All-Change Clean (end_serve-Clean result new) c (v.clean old);
  stopped = λ r. absurd (true-false (Change-any c) (v.stopped r));
  nil = λ r. absurd (true-false (Change-any c) (v.stopped (λ n. cc)));
}
Inside-Inv {s} (woke k h) v = record {
  woken = λ w. k;
  unasked = λ w. cc;
  clean = v.clean;
  stopped = v.stopped;
  nil = v.nil;
}
Inside-Inv {s} (spawned h c) v = record {
  woken = v.woken;
  unasked = λ w. cc;
  clean = λ e. All-Change Clean ask-Clean (ChangeFirst-Change c) (v.clean e);
  stopped = λ r. any-Change is_running is_running-ask (ChangeFirst-Change c) ∙ v.stopped r;
  nil = λ r. All-Change Clean ask-Clean (ChangeFirst-Change c) (v.nil r);
}
Inside-Inv {s} (shut result c) v = record {
  woken = λ w. Inside-Cancelled {s = s} (shut result c) (v.woken w);
  unasked = λ w. absurd (
      true-false (Change-any c)
        (any_weaker was_asked is_asked was_asked_of_is_asked s.slots (v.unasked w)));
  clean = λ e.
      let (old, new) = keep_first-none s.err result e in
      All-Change Clean close-Clean c (v.clean old);
  stopped = λ r. any-Change is_running is_running-close c ∙ v.stopped r;
  nil = λ r. All-Change Clean close-Clean c (v.nil r);
}
Inside-Inv {s} (waited h i) v = record {
  woken = λ w. Inside-Cancelled {s = s} (waited h i) (v.woken w);
  unasked = v.unasked;
  clean = v.clean;
  stopped = λ r. any_weaker is_pending is_running is_pending_of_is_running s.slots i;
  nil = λ r. v.clean (some-injective r);
}

begin-Inv : (n : ℕ) (runtime : Runtime.State) → Inv (begin n runtime)
begin-Inv n runtime = record {
  woken = λ w. cc;
  unasked = λ w. none_asked n;
  clean = λ e. all_clean n;
  stopped = λ r. absurd (r refl);
  nil = λ r. cc;
}
  where
    none_asked : (n : ℕ) → any was_asked (replicate n (slot running not_asked)) ≡ false
    none_asked zero = refl
    none_asked (suc n) = none_asked n

    all_clean : (n : ℕ) → All Clean (replicate n (slot running not_asked))
    all_clean zero = tt
    all_clean (suc n) = (tt, all_clean n)

Reachable-Inv : {n : ℕ} {s : Group} → Reachable n s → Inv s
Reachable-Inv {n} (begun runtime r) = begin-Inv n runtime
Reachable-Inv (outside r st) = Outside-Inv st (Reachable-Inv r)
Reachable-Inv (inside r st) = Inside-Inv st (Reachable-Inv r)

ended_well : (xs : List Slot) → any is_running xs ≡ false → All Clean xs → All EndedWell xs
ended_well [] e h = tt
ended_well (slot running c ∷ xs) e h = cc
ended_well (slot (ended r) c ∷ xs) e (h, hs) = (h, ended_well xs e hs)

-- At every moment: if g.Wait returned, no server is in its Serve; if it returned no error, every
-- Serve returned without one; and if Shutdown of any server was started, then the runtime is done,
-- a member of the group failed, or g.Wait returned.
pub group_outcome :
    (n : ℕ) (s : Group)
    → Reachable n s
    → (s.result ≢ none → any is_running s.slots ≡ false)
      × (s.result ≡ some none → All EndedWell s.slots)
      × (any was_asked s.slots ≡ true → Cancelled s)
group_outcome n s r =
    let v = Reachable-Inv r in
    (
      v.stopped,
      λ e. ended_well s.slots (v.stopped (λ x. cc)) (v.nil e),
      λ a. elim (Bool-cases s.watcher) [
        | inl w ↦ v.woken w
        | inr w ↦ absurd (true-false a (v.unasked w))
      ],
    )
