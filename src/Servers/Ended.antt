-- ===== src/Servers/Ended.antt =====
-- The servers when the group has returned, and when they are destroyed behind it.
use servion.Base.{
  ℕ, ◌≤◌, Bool, true, false, ◌||◌, List, [], ◌∷◌, length, replicate, All, any, Option, none, ◌≡◌,
  ◌≢◌, refl, sym, ap, ◌∙◌, subst, if◌then◌else◌, arith,
}
use servion.Runner.{Error}
use servion.Serving.{
  Slot, slot, running, ended, not_asked, asked, closed, is_running, is_asked, is_unasked, ask,
  close, end_serve as end_slot, Change, here, there, ChangeFirst, first, later, Group, begin,
  Outside, runtime_moved, signalled, aborted, Reachable,
}
use servion.Serving
use servion.Serving.Outcome.{is_running-close, group_outcome}
use servion.Servers.{World, alive, shutdown, destroy}
use servion.Servers.Steps.{serving-alive, shutdown-Agrees}
use servion.Servers.Contract.{closes, Reached-Agrees}
use servion.Servers.Members.{
  Good, AskFirst-ChangeFirst, AskFirst-Good, One-Good, One-Change, One-places, Begins-Good,
  Ends-Good, Begins-place, Ends-place,
}
use servion.Servers.Together.{
  Member, Closes, closes_it, places, Ready, Joint, begun, outside, serving, served, woke, spawned,
  shut, waited,
}

Outside-slots : {g g' : Group} → Outside g g' → g'.slots ≡ g.slots
Outside-slots (runtime_moved st) = refl
Outside-slots (signalled hangup h) = refl
Outside-slots (aborted d h) = refl

-- The step of the group on its slots, as one on the places of the servers.
moved_slots :
    {test : Slot → Bool} {f : Slot → Slot} {xs ys zs : List Slot}
    → xs ≡ ys
    → Change test f ys zs
    → Change test f xs zs
moved_slots {test} {f} {xs} {ys} {zs} e c = subst (λ x. Change test f x zs) (sym e) c

one_at_most : (b : Bool) {n : ℕ} → n ≡ (if b then 1 else 0) → n ≤ 1
one_at_most true e = omega (arith, e)
one_at_most false e = omega (arith, e)

crash_only : {serving crashed : Bool} → serving ≡ false → (serving || crashed) ≡ crashed
crash_only e = ground (arith, e)

if_false : (a b : Bool) → (if a then true else b) ≡ false → (a ≡ false) × (b ≡ false)
if_false a b h = ground (arith, h)

module _ {S GSrv Lis Dialer Srv Policy : Type 0} where
  -- What the program reaches: the servers are the slots of a group that the group itself reaches.
  record Sound (g : Group) (ms : List (Member S GSrv Lis Dialer Srv Policy)) : Type 0 where
    size : ℕ
    reached : Reachable size g
    slots : g.slots ≡ places ms
    good : All Good ms

  module _ {Base Conn : Type 0} (world : World S Base Conn Lis Srv Policy) where
    Ready-Good : (m : Member S GSrv Lis Dialer Srv Policy) → Ready world m → Good m
    Ready-Good m (p, v, (s, r)) =
        (Reached-Agrees world r, ap (λ w. w.bound) v, λ n. ap (λ w. w.serving) v)

    Ready-places :
        (ms : List (Member S GSrv Lis Dialer Srv Policy))
        → All (Ready world) ms
        → replicate (length ms) (slot running not_asked) ≡ places ms
    Ready-places [] rs = refl
    Ready-places (m ∷ ms) ((p, _, _), rs) = rw (p, Ready-places ms rs) refl

    Ready-All-Good :
        (ms : List (Member S GSrv Lis Dialer Srv Policy)) → All (Ready world) ms → All Good ms
    Ready-All-Good [] rs = tt
    Ready-All-Good (m ∷ ms) (r, rs) = (Ready-Good m r, Ready-All-Good ms rs)

    Closes-Good :
        (result : Option Error) (m : Member S GSrv Lis Dialer Srv Policy) (s : S)
        (m' : Member S GSrv Lis Dialer Srv Policy) (s' : S)
        → Closes world result m s m' s'
        → Good m
        → Good m'
    Closes-Good result m s m' s' (closes_it k e) (a, b, n) =
        (shutdown-Agrees world m.view m.server s a, b, λ e. n (sym (is_running-close m.place) ∙ e))

    Closes-place :
        (result : Option Error) (m : Member S GSrv Lis Dialer Srv Policy) (s : S)
        (m' : Member S GSrv Lis Dialer Srv Policy) (s' : S)
        → Closes world result m s m' s'
        → (is_asked m.place ≡ true) × (m'.place ≡ close m.place)
    Closes-place result m s m' s' (closes_it k e) = (k, refl)

    Joint-Sound :
        {g : Group} {ms : List (Member S GSrv Lis Dialer Srv Policy)} {s : S}
        → Joint world g ms s
        → Sound g ms
    Joint-Sound (begun runtime r ms s rs) = record {
      size = length ms;
      reached = Serving.begun runtime r;
      slots = Ready-places ms rs;
      good = Ready-All-Good ms rs;
    }
    Joint-Sound (outside s' j st) =
        let v = Joint-Sound j in
        record {
          size = v.size;
          reached = Serving.outside v.reached st;
          slots = Outside-slots st ∙ v.slots;
          good = v.good;
        }
    Joint-Sound (serving {s} {s'} j o) =
        let v = Joint-Sound j in
        record {
          size = v.size;
          reached = v.reached;
          slots = v.slots ∙ sym (One-places (λ m m' a. Begins-place s s' m m' a) o);
          good = One-Good (Begins-Good s s') o v.good;
        }
    Joint-Sound (served {s} {s'} blocked result j o) =
        let v = Joint-Sound j in
        record {
          size = v.size;
          reached = Serving.inside v.reached (
              Serving.served result
                (moved_slots v.slots (One-Change (Ends-place blocked result s s') o)));
          slots = refl;
          good = One-Good (Ends-Good blocked result s s') o v.good;
        }
    Joint-Sound (woke j c w) =
        let v = Joint-Sound j in
        record {
          size = v.size;
          reached = Serving.inside v.reached (Serving.woke c w);
          slots = v.slots;
          good = v.good;
        }
    Joint-Sound (spawned {ms'} j w a) =
        let v = Joint-Sound j in
        record {
          size = v.size;
          reached = Serving.inside v.reached (
              Serving.spawned w (
                subst (λ x. ChangeFirst is_unasked ask x (places ms')) (sym v.slots)
                  (AskFirst-ChangeFirst a)));
          slots = refl;
          good = AskFirst-Good a v.good;
        }
    Joint-Sound (shut {s} {s'} result j o) =
        let v = Joint-Sound j in
        record {
          size = v.size;
          reached = Serving.inside v.reached (
              Serving.shut result
                (moved_slots v.slots (One-Change (λ m m' a. Closes-place result m s m' s' a) o)));
          slots = refl;
          good = One-Good (λ m m' a. Closes-Good result m s m' s' a) o v.good;
        }
    Joint-Sound (waited j r p) =
        let v = Joint-Sound j in
        record {
          size = v.size;
          reached = Serving.inside v.reached (Serving.waited r p);
          slots = v.slots;
          good = v.good;
        }

    -- Destroy of the servers, one after the other.
    unfoldable pub destroy_all :
        List (Member S GSrv Lis Dialer Srv Policy)
        → S
        → S × List (Member S GSrv Lis Dialer Srv Policy)
    destroy_all [] s = (s, [])
    destroy_all (m ∷ ms) s =
        let (s', t, _) = destroy world m.server s in
        let (s'', ms') = destroy_all ms s' in (s'', record m { server = t } ∷ ms')

    destroy_all-Closed :
        (ms : List (Member S GSrv Lis Dialer Srv Policy)) (s : S)
        → All Good ms
        → any is_running (places ms) ≡ false
        → All (λ m. (alive m.server ≡ m.view.crashed) × (closes m.server ≡ 1)) (destroy_all ms s).1
    unfolding destroy_all destroy
    destroy_all-Closed [] s gs n = tt
    destroy_all-Closed (m ∷ ms) s ((a, b, q), gs) n =
        let (still, _, once, _) = shutdown-Agrees world m.view m.server s a in
        let (out, outs) = if_false (is_running m.place) (any is_running (places ms)) n in
        (
          (serving-alive (shutdown world m.server s).1 ∙ still ∙ crash_only (q out), once),
          destroy_all-Closed ms (destroy world m.server s).0 gs outs,
        )

    stopped :
        (ms : List (Member S GSrv Lis Dialer Srv Policy))
        → All Good ms
        → any is_running (places ms) ≡ false
        → All (λ m. (alive m.server ≡ m.view.crashed) × (closes m.server ≤ 1)) ms
    stopped [] gs n = tt
    stopped (m ∷ ms) ((a, b, q), gs) n =
        let (still, _, once, _) = a in
        let (out, outs) = if_false (is_running m.place) (any is_running (places ms)) n in
        (
          (serving-alive m.server ∙ still ∙ crash_only (q out), one_at_most m.view.closed once),
          stopped ms gs outs,
        )

    -- The servers of runServers, each bound, with the steps of the errgroup and of the runtime in
    -- any order: when g.Wait has returned, a server is alive exactly if its Serve returned by a
    -- recovered panic, and the shutdown channel of each was closed once at most; and behind a
    -- Destroy of every server, in a world that others change too, the same servers are alive and
    -- the channel of each was closed exactly once, whether or not the group had shut it down.
    pub servers_end :
        {g : Group} {ms : List (Member S GSrv Lis Dialer Srv Policy)} {s : S}
        → Joint world g ms s
        → g.result ≢ none
        → (s' : S)
        → All (λ m. (alive m.server ≡ m.view.crashed) × (closes m.server ≤ 1)) ms
          × All
              (λ m. (alive m.server ≡ m.view.crashed) × (closes m.server ≡ 1))
              (destroy_all ms s').1
    servers_end {g} {ms} j r s' =
        let v = Joint-Sound j in
        let out =
          subst (λ xs. any is_running xs ≡ false) v.slots
            ((group_outcome v.size g v.reached).0 r) in
        (stopped ms v.good out, destroy_all-Closed ms s' v.good out)
