-- ===== src/Servers/Bound.antt =====
-- utils.go, bindServers, over servers that are kept in one store, each bound in its place.
use servion.Base.{
  ℕ, zero, suc, true, false, List, [], ◌∷◌, ◌++◌, map, length, All, Option, none, some, ◌≡◌, refl,
  ap, sym, subst, Option-cases, inl, inr,
}
use servion.Runner.{Error, Server, Binding, bind_failure, bind_each}
use servion.Serving.{slot, running, not_asked}
use servion.Servers.{AnyServer, World, bind}
use servion.Servers.Binding.{is_absent}
use servion.Servers.Steps.{fresh}
use servion.Servers.Contract.{Reached, bound, moved}
use servion.Servers.Together.{Member, Ready}

module _ {A : Type 0} where
  length-snoc : (pre : List A) (x : A) → length (pre ++ x ∷ []) ≡ suc (length pre)
  length-snoc [] x = refl
  length-snoc (p ∷ pre) x = ap suc (length-snoc pre x)

  append-snoc : (pre : List A) (x : A) (xs : List A) → (pre ++ x ∷ []) ++ xs ≡ pre ++ x ∷ xs
  append-snoc [] x xs = refl
  append-snoc (p ∷ pre) x xs = ap (λ ys. p ∷ ys) (append-snoc pre x xs)

module _ {S GSrv Lis Dialer Srv Policy : Type 0} where
  -- The members of the group: the servers that bound, with what bind made of them.
  unfoldable pub members :
      List (AnyServer S GSrv Lis Dialer Srv Policy × Option Error)
      → List (Member S GSrv Lis Dialer Srv Policy)
  members [] = []
  members ((t, none) ∷ outs) =
      record {
        place = slot running not_asked;
        view = record { bound = true; serving = false; crashed = false; closed = false };
        server = t;
      }
      ∷ members outs
  members ((t, some e) ∷ outs) = members outs

  unfoldable pub errors : List (AnyServer S GSrv Lis Dialer Srv Policy × Option Error) → List Error
  errors [] = []
  errors ((t, none) ∷ outs) = errors outs
  errors ((t, some e) ∷ outs) = e ∷ errors outs

  abbrev pub left :
      List (AnyServer S GSrv Lis Dialer Srv Policy × Option Error)
      → List (AnyServer S GSrv Lis Dialer Srv Policy)
  left outs = map (λ out. out.0) outs

  module _ {Base Conn : Type 0} (world : World S Base Conn Lis Srv Policy) where
    -- Bind of the server in a place of the store.
    unfoldable pub bind_at :
        ℕ
        → S × List (AnyServer S GSrv Lis Dialer Srv Policy)
        → (S × List (AnyServer S GSrv Lis Dialer Srv Policy)) × Option Error
    bind_at n (s, []) = ((s, []), none)
    bind_at zero (s, t ∷ ts) = let (s', t', failed) = bind world t s in ((s', t' ∷ ts), failed)
    bind_at (suc n) (s, t ∷ ts) = let (st, failed) = bind_at n (s, ts) in ((st.0, t ∷ st.1), failed)

    -- What the runner gets: one server a place, from a place on.
    unfoldable pub servers_from :
        ℕ → ℕ → List (Server (S × List (AnyServer S GSrv Lis Dialer Srv Policy)))
    servers_from k zero = []
    servers_from k (suc n) = record { bind = bind_at k } ∷ servers_from (suc k) n

    -- Each server binds in turn: what became of it, and its error.
    unfoldable pub bind_all :
        List (AnyServer S GSrv Lis Dialer Srv Policy)
        → S
        → S × List (AnyServer S GSrv Lis Dialer Srv Policy × Option Error)
    bind_all [] s = (s, [])
    bind_all (t ∷ ts) s =
        let (s', t', failed) = bind world t s in
        let (s'', outs) = bind_all ts s' in (s'', (t', failed) ∷ outs)

    bind_at-length :
        (pre : List (AnyServer S GSrv Lis Dialer Srv Policy))
        (t : AnyServer S GSrv Lis Dialer Srv Policy)
        (ts : List (AnyServer S GSrv Lis Dialer Srv Policy)) (s : S)
        → bind_at (length pre) (s, pre ++ t ∷ ts)
          ≡ (let (s', t', failed) = bind world t s in ((s', pre ++ t' ∷ ts), failed))
    unfolding bind_at
    bind_at-length [] t ts s = refl
    bind_at-length (p ∷ pre) t ts s = rw (bind_at-length pre t ts s) refl

    bind_all-Ready :
        (ts : List (AnyServer S GSrv Lis Dialer Srv Policy)) (s : S)
        → All (λ t. (s' : S) × Reached world fresh t s') ts
        → All (Ready world) (members (bind_all ts s).1)
    unfolding bind_all members
    bind_all-Ready [] s rs = tt
    bind_all-Ready (t ∷ ts) s ((s', r), rs) =
        let rest = bind_all-Ready ts (bind world t s).0 rs in
        elim (Option-cases (bind world t s).2) [
          | inl n ↦
              rw (n, members)
                (
                  (
                    refl,
                    refl,
                    (
                      (bind world t s).0,
                      subst
                          (λ f.
                            Reached world (record fresh { bound = is_absent f }) (bind world t s).1
                              (bind world t s).0)
                          n (bound (moved s r)),
                    ),
                  ),
                  rest,
                )
          | inr (e, f) ↦ rw (f, members) rest
        ]

    -- What bindServers' loop leaves, where the places of `pre` stand before those of the servers.
    abbrev Leaves :
        List (AnyServer S GSrv Lis Dialer Srv Policy)
        → (S × List (AnyServer S GSrv Lis Dialer Srv Policy))
          × Binding (S × List (AnyServer S GSrv Lis Dialer Srv Policy))
        → S × List (AnyServer S GSrv Lis Dialer Srv Policy × Option Error)
        → Type 0
    Leaves pre b o =
        (b.0 ≡ (o.0, pre ++ left o.1))
        × (b.1.bind_errs ≡ errors o.1)
        × (length b.1.bound ≡ length (members o.1))

    -- The loop behind the first Bind.
    continue :
        Server (S × List (AnyServer S GSrv Lis Dialer Srv Policy))
        → List (Server (S × List (AnyServer S GSrv Lis Dialer Srv Policy)))
        → (S × List (AnyServer S GSrv Lis Dialer Srv Policy)) × Option Error
        → (S × List (AnyServer S GSrv Lis Dialer Srv Policy))
          × Binding (S × List (AnyServer S GSrv Lis Dialer Srv Policy))
    continue server servers (st, failed) =
        let (st', rest) = bind_each servers st in
        (
          st',
          elim failed [
            | none ↦ record rest { bound = server ∷ rest.bound }
            | some e ↦ bind_failure e rest
          ],
        )

    bind_each-Leaves :
        (pre ts : List (AnyServer S GSrv Lis Dialer Srv Policy)) (s : S)
        → Leaves pre
            (bind_each (servers_from (length pre) (length ts)) (s, pre ++ ts))
            (bind_all ts s)
    unfolding bind_each continue servers_from bind_all errors members
    bind_each-Leaves pre [] s = (refl, refl, refl)
    bind_each-Leaves pre (t ∷ ts) s =
        let s' = (bind world t s).0 in
        let t' = (bind world t s).1 in
        let o = bind_all ts s' in
        let (state, errs, count) =
          rw (length-snoc pre t', append-snoc pre t' ts, append-snoc pre t' (left o.1)) at
            (bind_each-Leaves (pre ++ t' ∷ []) ts s') in
        subst
          (λ out.
            Leaves pre
              (continue (record { bind = bind_at (length pre) })
                (servers_from (suc (length pre)) (length ts)) out)
              (bind_all (t ∷ ts) s))
          (sym (bind_at-length pre t ts s))
          (elim (Option-cases (bind world t s).2) [
            | inl n ↦ rw (n, continue) (state, errs, ap suc count)
            | inr (e, f) ↦ rw (f, continue) (state, ap (λ es. e ∷ es) errs, count)
          ])

    -- bindServers' loop over new servers of any classes, each in its place of one store, with
    -- whatever Bind of each does to the world: the store holds what each Bind left of its server;
    -- the errors are those of the servers that did not bind, in order; the loop keeps as many
    -- servers as bound; and each of these is ready to be a member of the group of runServers.
    pub bind_each-Ready :
        (ts : List (AnyServer S GSrv Lis Dialer Srv Policy)) (s : S)
        → All (λ t. (s' : S) × Reached world fresh t s') ts
        → let b = bind_each (servers_from 0 (length ts)) (s, ts) in
          let o = bind_all ts s in
          (b.0 ≡ (o.0, left o.1))
          × (b.1.bind_errs ≡ errors o.1)
          × (length b.1.bound ≡ length (members o.1))
          × All (Ready world) (members o.1)
    bind_each-Ready ts s rs =
        let (state, errs, count) = bind_each-Leaves [] ts s in
        (state, errs, count, bind_all-Ready ts s rs)
