-- ===== src/Serving/Cancels.antt =====
-- groupCtx stays done.
use servion.Base.{true, Option, none, some, ◌≡◌, ◌≢◌, inl, inr, refl, arith}
use servion.Runner.{Error}
use servion.Runtime.{State, call_shutdown, advance, run_statement, done, Phase, called, advanced}
use servion.Runtime
use servion.Serving.{
  Group, keep_first, Cancelled, Outside, runtime_moved, signalled, aborted, Inside, served, woke,
  spawned, shut, waited,
}

Step-done :
    {t t' : Runtime.State} → Runtime.Step t t' → done t.runtime ≡ true → done t'.runtime ≡ true
unfolding call_shutdown advance run_statement done
Step-done (called restart s) e = e
Step-done (advanced s) e = advance_done s.phase s.runtime e
  where
    advance_done :
        (phase : Phase) (t : Runtime.Runtime)
        → done t ≡ true
        → done (run_statement phase t).1 ≡ true
    advance_done Phase.idle t e = e
    advance_done (Phase.store_restarting r) t e = e
    advance_done Phase.store_shutting_down t e = e
    advance_done Phase.store_err t e = e
    advance_done Phase.close t e = ground arith
    advance_done Phase.finished t e = e

keep_first_some : (e result : Option Error) → e ≢ none → keep_first e result ≢ none
keep_first_some none result h = absurd (h refl)
keep_first_some (some x) result h = h

-- What cancels the group goes on to.
pub Outside-Cancelled : {s s' : Group} → Outside s s' → Cancelled s → Cancelled s'
unfolding call_shutdown
Outside-Cancelled (runtime_moved st) (inl d) = inl (Step-done st d)
Outside-Cancelled (runtime_moved st) (inr e) = inr e
Outside-Cancelled (signalled hangup h) c = c
Outside-Cancelled (aborted d h) c = c

pub Inside-Cancelled : {s s' : Group} → Inside s s' → Cancelled s → Cancelled s'
Inside-Cancelled (served result c) (inl d) = inl d
Inside-Cancelled {s} (served result c) (inr (inl e)) = inr (inl (keep_first_some s.err result e))
Inside-Cancelled (served result c) (inr (inr e)) = inr (inr e)
Inside-Cancelled (woke k h) c = c
Inside-Cancelled (spawned h c') c = c
Inside-Cancelled (shut result c') (inl d) = inl d
Inside-Cancelled {s} (shut result c') (inr (inl e)) = inr (inl (keep_first_some s.err result e))
Inside-Cancelled (shut result c') (inr (inr e)) = inr (inr e)
Inside-Cancelled (waited h i) (inl d) = inl d
Inside-Cancelled (waited h i) (inr (inl e)) = inr (inl e)
Inside-Cancelled (waited h i) (inr (inr e)) = inr (inr (λ x. cc))
