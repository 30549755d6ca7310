-- ===== src/Runner/Closing.antt =====
-- doWithServers leaves no container of a server open.
use servion.Base.{
  ℕ, ◌+◌, ◌-◌, List, [], ◌∷◌, All, length, ◌⊎◌, inl, inr, ◌≡◌, refl, arith, Option-cases, suc, ◌∙◌,
}
use servion.Runner.{
  Error, Server, Container, Core, Body, create, inject, collect, close_all, usable, with_containers,
  open_servers, do_with_servers,
}

pub Sum-cases : {A B : Type 0} (x : A ⊎ B) → ((a : A) × (x ≡ inl a)) ⊎ ((b : B) × (x ≡ inr b))
Sum-cases (inl a) = inl (a, refl)
Sum-cases (inr b) = inr (b, refl)

-- `opened` counts the open containers of servers in the state.
module _ {S : Type 0} (opened : S → ℕ) where
  -- Close closes, and nothing else of the container opens or closes one.
  pub record Tame (c : Container S) : Type 0 where
    pub closes : (s : S) → opened (c.close s).0 ≡ opened s - 1
    pub injects : All (λ bean. (s : S) → opened (bean s).0 ≡ opened s) c.http_servers

  -- A child that is made is open; one that fails is not.
  abbrev pub Made : S → S × (Error ⊎ Container S) → Type 0
  Made s (s', inl e) = opened s' ≡ opened s
  Made s (s', inr c) = (opened s' ≡ suc (opened s)) × Tame c

  abbrev pub Makes : (S → S × (Error ⊎ Container S)) → Type 0
  Makes child = (s : S) → Made s (child s)

  create-opened :
      (children : List (S → S × (Error ⊎ Container S))) (s : S)
      → All Makes children
      → let (s', cs, failed) = create children s in (opened s' ≡ opened s + length cs) × All Tame cs
  unfolding create
  create-opened [] s ms = (omega arith, tt)
  create-opened (child ∷ children) s (m, ms) = elim (Sum-cases (child s).1) [
    | inl (x, e) ↦ rw (e, create) (omega (arith, rw e at (m s)), tt)
    | inr (c, e) ↦
        let made = rw e at (m s) in
        let (n, ts) = create-opened children (child s).0 ms in
        rw (e, create) (omega (arith, n, made.0), (made.1, ts))
  ]

  inject-opened :
      (beans : List (S → S × (Error ⊎ Server S))) (s : S)
      → All (λ bean. (s : S) → opened (bean s).0 ≡ opened s) beans
      → opened (inject beans s).0 ≡ opened s
  unfolding inject
  inject-opened [] s ps = refl
  inject-opened (bean ∷ beans) s (p, ps) =
      let rest = inject-opened beans (bean s).0 ps ∙ p s in
      elim (Sum-cases (bean s).1) [
        | inl (x, e) ↦ rw (e, inject) (p s)
        | inr (server, e) ↦
            rw (e, inject)
              (elim (Sum-cases (inject beans (bean s).0).1) [
                | inl (x, f) ↦ rw f rest
                | inr (more, f) ↦ rw f rest
              ])
      ]

  collect-opened :
      (cs : List (Container S)) (s : S) → All Tame cs → opened (collect cs s).0 ≡ opened s
  unfolding collect
  collect-opened [] s ts = refl
  collect-opened (c ∷ cs) s (t, ts) =
      let here = inject-opened c.http_servers s t.injects in
      let rest = collect-opened cs (inject c.http_servers s).0 ts ∙ here in
      elim (Sum-cases (usable c.servers)) [
        | inl (x, e) ↦ rw (e, collect) refl
        | inr (own, e) ↦
            rw (e, collect)
              (elim (Sum-cases (inject c.http_servers s).1) [
                | inl (x, f) ↦ rw f here
                | inr (http, f) ↦
                    rw f (elim (Sum-cases (collect cs (inject c.http_servers s).0).1) [
                      | inl (x, g) ↦ rw g rest
                      | inr (more, g) ↦ rw g rest
                    ])
              ])
      ]

  close_all-opened :
      (cs : List (Container S)) (s : S)
      → All Tame cs
      → opened (close_all cs s).0 ≡ opened s - length cs
  unfolding close_all
  close_all-opened [] s ts = omega arith
  close_all-opened (c ∷ cs) s (t, ts) =
      omega (arith, close_all-opened cs (c.close s).0 ts, t.closes s)

  -- The callback opens and closes no container of a server.
  abbrev pub Keeps : Body S → Type 0
  Keeps cb = (servers : List (Server S)) (s : S) → opened (cb servers s).0 ≡ opened s

  with_containers-opened :
      (cb : Body S) (cs : List (Container S)) (s : S)
      → Keeps cb
      → All Tame cs
      → opened (with_containers cb cs s).0 ≡ opened s
  unfolding with_containers
  with_containers-opened cb cs s k ts = elim (Sum-cases (collect cs s).1) [
    | inl (x, e) ↦ rw (e, with_containers) (collect-opened cs s ts)
    | inr (servers, e) ↦
        rw (e, with_containers) (k servers (collect cs s).0 ∙ collect-opened cs s ts)
  ]

  open_servers-opened :
      (self : Container S) (children : List (S → S × (Error ⊎ Container S))) (cb : Body S) (s : S)
      → Keeps cb
      → Tame self
      → All Makes children
      → let (s', made, out) = open_servers (record { self = self; children = children }) cb s in
        (opened s' ≡ opened s + length made) × All Tame made
  unfolding open_servers
  open_servers-opened self [] cb s k t ms =
      (omega (arith, with_containers-opened cb (self ∷ []) s k (t, tt)), tt)
  open_servers-opened self (child ∷ children) cb s k t ms =
      let (n, ts) = create-opened (child ∷ children) s ms in
      elim (Option-cases (create (child ∷ children) s).2) [
        | inl e ↦
            rw (e, open_servers)
              (
                omega (
                  arith,
                  n,
                  with_containers-opened cb (create (child ∷ children) s).1
                      (create (child ∷ children) s).0 k ts,
                ),
                ts,
              )
        | inr (x, e) ↦ rw (e, open_servers) (n, ts)
      ]

  -- Where making a child opens a container of servers, Close of a container closes one, and no bean
  -- and no callback opens or closes any: however the creation of the children, the search for
  -- servers and the callback end, with a result, an error or a panic of the callback, as many are
  -- open behind doWithServers as before.
  pub do_with_servers-opened :
      (core : Core S) (cb : Body S) (s : S)
      → Keeps cb
      → Tame core.self
      → All Makes core.children
      → opened (do_with_servers core cb s).0 ≡ opened s
  unfolding do_with_servers
  do_with_servers-opened core cb s k t ms =
      let (n, ts) = open_servers-opened core.self core.children cb s k t ms in
      omega (arith, n, close_all-opened (open_servers core cb s).1 (open_servers core cb s).0 ts)
