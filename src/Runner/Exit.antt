-- ===== src/Runner/Exit.antt =====
-- What the run command reports when nothing can bind.
use servion.Base.{
  List, [], ◌∷◌, ◌++◌, All, Bool, true, false, Option, none, some, Option-cases, ◌⊎◌, inl, inr, ◌≡◌,
  ◌≢◌, refl, if◌then◌else◌,
}
use servion.Runner.{
  Error, RunError, repeat_run, Server, Container, Core, Command, Outcome, returned, panicked,
  usable, create, inject, collect, with_containers, open_servers, do_with_servers, settle,
  recovered, result_of, run_bound, run_servers, run, bind_each, bind_servers,
}
use servion.Runner.Closing.{Sum-cases}

-- A failure of the callback, or what it left of one.
abbrev Failed : Outcome → Type 0
Failed (returned none) = ⊥
Failed (returned (some e)) = Unit
Failed (panicked e) = Unit

settle-Failed : (out : Outcome) (closing : List Error) → Failed out → settle out closing ≢ none
unfolding settle recovered result_of
settle-Failed (returned none) closing f e = f
settle-Failed (returned (some x)) [] f e = cc
settle-Failed (returned (some x)) (y ∷ closing) f e = cc
settle-Failed (panicked x) closing f e = cc

exit-error :
    (restarting : Bool) (result : Option RunError)
    → result ≢ none
    → (if restarting then some repeat_run else result) ≢ none
exit-error true result n h = cc
exit-error false result n h = n h

module _ {S : Type 0} where
  -- Bind fails in every state.
  abbrev pub Dead : Server S → Type 0
  Dead server = (s : S) → (e : Error) × ((server.bind s).1 ≡ some e)

  abbrev pub DeadBean : Error ⊎ Server S → Type 0
  DeadBean (inl e) = Unit
  DeadBean (inr server) = Dead server

  pub record DeadContainer (c : Container S) : Type 0 where
    pub own : All DeadBean c.servers
    pub http : All (λ bean. (s : S) → DeadBean (bean s).1) c.http_servers

  abbrev pub DeadChild : Error ⊎ Container S → Type 0
  DeadChild (inl e) = Unit
  DeadChild (inr c) = DeadContainer c

  -- No server of the program can bind.
  pub record DeadCore (core : Core S) : Type 0 where
    pub self_dead : DeadContainer core.self
    pub children_dead : All (λ child. (s : S) → DeadChild (child s).1) core.children

  -- The servers found, if any were.
  abbrev Found : {E : Type 0} → E ⊎ List (Server S) → Type 0
  Found (inl e) = Unit
  Found (inr servers) = All Dead servers

  bind_each-Dead :
      (servers : List (Server S)) (s : S) → All Dead servers → (bind_each servers s).1.bound ≡ []
  unfolding bind_each
  bind_each-Dead [] s ds = refl
  bind_each-Dead (server ∷ servers) s (d, ds) =
      rw ((d s).1, bind_each) (bind_each-Dead servers (server.bind s).0 ds)

  run_bound-Failed :
      (serve_all : List (Server S) → S → S × Outcome) (servers : List (Server S)) (s : S)
      → All Dead servers
      → Failed (run_bound serve_all servers s).1
  unfolding run_bound bind_servers
  run_bound-Failed serve_all [] s ds = tt
  run_bound-Failed serve_all (server ∷ servers) s ds =
      rw (bind_each-Dead (server ∷ servers) s ds, run_bound, bind_servers) tt

  All-append : (xs ys : List (Server S)) → All Dead xs → All Dead ys → All Dead (xs ++ ys)
  All-append [] ys p q = q
  All-append (x ∷ xs) ys (p, ps) q = (p, All-append xs ys ps q)

  usable-Found : (beans : List (Error ⊎ Server S)) → All DeadBean beans → Found (usable beans)
  unfolding usable
  usable-Found [] ds = tt
  usable-Found (inl e ∷ beans) ds = tt
  usable-Found (inr server ∷ beans) (d, ds) = elim (Sum-cases (usable beans)) [
    | inl (x, e) ↦ rw (e, usable) tt
    | inr (more, e) ↦ rw (e, usable) (d, rw e at (usable-Found beans ds))
  ]

  inject-Found :
      (beans : List (S → S × (Error ⊎ Server S))) (s : S)
      → All (λ bean. (s : S) → DeadBean (bean s).1) beans
      → Found (inject beans s).1
  unfolding inject
  inject-Found [] s ds = tt
  inject-Found (bean ∷ beans) s (d, ds) =
      let rest = inject-Found beans (bean s).0 ds in
      elim (Sum-cases (bean s).1) [
        | inl (x, e) ↦ rw (e, inject) tt
        | inr (server, e) ↦
            rw (e, inject)
              (elim (Sum-cases (inject beans (bean s).0).1) [
                | inl (x, f) ↦ rw f tt
                | inr (more, f) ↦ rw f (rw e at (d s), rw f at rest)
              ])
      ]

  collect-Found : (cs : List (Container S)) (s : S) → All DeadContainer cs → Found (collect cs s).1
  unfolding collect
  collect-Found [] s ds = tt
  collect-Found (c ∷ cs) s (d, ds) =
      let here = inject-Found c.http_servers s d.http in
      let rest = collect-Found cs (inject c.http_servers s).0 ds in
      elim (Sum-cases (usable c.servers)) [
        | inl (x, e) ↦ rw (e, collect) tt
        | inr (own, e) ↦
            rw (e, collect)
              (elim (Sum-cases (inject c.http_servers s).1) [
                | inl (x, f) ↦ rw f tt
                | inr (http, f) ↦
                    rw f (elim (Sum-cases (collect cs (inject c.http_servers s).0).1) [
                      | inl (x, g) ↦ rw g tt
                      | inr (more, g) ↦ rw g (
                          All-append (own ++ http) more
                            (All-append own http (rw e at (usable-Found c.servers d.own))
                              (rw f at here))
                            (rw g at rest))
                    ])
              ])
      ]

  with_containers-Failed :
      (serve_all : List (Server S) → S → S × Outcome) (cs : List (Container S)) (s : S)
      → All DeadContainer cs
      → Failed (with_containers (run_bound serve_all) cs s).1
  unfolding with_containers
  with_containers-Failed serve_all cs s ds = elim (Sum-cases (collect cs s).1) [
    | inl (x, e) ↦ rw (e, with_containers) tt
    | inr (servers, e) ↦
        rw (e, with_containers)
          (run_bound-Failed serve_all servers (collect cs s).0 (rw e at (collect-Found cs s ds)))
  ]

  create-Dead :
      (children : List (S → S × (Error ⊎ Container S))) (s : S)
      → All (λ child. (s : S) → DeadChild (child s).1) children
      → All DeadContainer (create children s).1
  unfolding create
  create-Dead [] s ds = tt
  create-Dead (child ∷ children) s (d, ds) = elim (Sum-cases (child s).1) [
    | inl (x, e) ↦ rw (e, create) tt
    | inr (c, e) ↦ rw (e, create) (rw e at (d s), create-Dead children (child s).0 ds)
  ]

  open_servers-Failed :
      (serve_all : List (Server S) → S → S × Outcome) (self : Container S)
      (children : List (S → S × (Error ⊎ Container S))) (s : S)
      → DeadCore (record { self = self; children = children })
      → Failed
          (open_servers (record { self = self; children = children }) (run_bound serve_all) s).2
  unfolding open_servers
  open_servers-Failed serve_all self [] s d =
      with_containers-Failed serve_all (self ∷ []) s (d.self_dead, tt)
  open_servers-Failed serve_all self (child ∷ children) s d =
      let made = create (child ∷ children) s in
      elim (Option-cases made.2) [
        | inl e ↦
            rw (e, open_servers)
              (with_containers-Failed serve_all made.1 made.0
                (create-Dead (child ∷ children) s d.children_dead))
        | inr (x, e) ↦ rw (e, open_servers) tt
      ]

  run_servers-Failed :
      (core : Core S) (serve_all : List (Server S) → S → S × Outcome) (s : S)
      → DeadCore core
      → (run_servers core serve_all s).1 ≢ none
  unfolding run_servers do_with_servers
  run_servers-Failed core serve_all s d =
      settle-Failed _ _ (open_servers-Failed serve_all core.self core.children s d)

  -- When no server of the program can bind, in any state, the run command does not end without an
  -- error, whatever else it meets on the way.
  pub run_unbound :
      (cmd : Command S) (serve_all : List (Server S) → S → S × Outcome) (s : S)
      → ((s : S) (core : Core S) → (cmd.extend s).1 ≡ inr core → DeadCore core)
      → (run cmd serve_all s).1 ≢ none
  unfolding run
  run_unbound cmd serve_all s d =
      let s₁ = (cmd.new_logger s).0 in
      elim (Option-cases (cmd.new_logger s).1) [
        | inr (x, e) ↦ rw (e, run) (λ h. cc)
        | inl e ↦
            rw (e, run)
              (elim (Sum-cases (cmd.extend s₁).1) [
                | inl (x, f) ↦ rw f (λ h. cc)
                | inr (core, f) ↦ rw f (
                    exit-error _ _
                      (run_servers-Failed core serve_all (cmd.extend s₁).0 (d s₁ core f)))
              ])
      ]
