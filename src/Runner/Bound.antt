-- ===== src/Runner/Bound.antt =====
-- What bindServers gives, against the outcomes of the calls of Bind.
use servion.Base.{
  Bool-cases, ltb, true, false, List, [], ◌∷◌, ◌++◌, length, map, Option, none, some, inl, inr,
  if◌then◌else◌, ◌==◌, ◌≡◌, ◌≢◌, refl, arith, ◌+◌,
}
use servion.Runner.{
  Error, none_bound, Server, warning, degraded, bind_each, bind_servers, addr_in_use_hint,
}

module _ {S : Type 0} where
  -- The calls of Bind, one after the other, with what each gave.
  pub data Binds : List (Server S) → S → List (Server S × Option Error) → S → Type 0 where
    none_left : (s : S) → Binds [] s [] s
    binds :
        (server : Server S) (servers : List (Server S)) (s s₁ s₂ : S) (result : Option Error)
        (outs : List (Server S × Option Error))
        → server.bind s ≡ (s₁, result)
        → Binds servers s₁ outs s₂
        → Binds (server ∷ servers) s ((server, result) ∷ outs) s₂

  abbrev pub successes : List (Server S × Option Error) → List (Server S)
  successes [] = []
  successes ((server, none) ∷ outs) = server ∷ successes outs
  successes ((server, some e) ∷ outs) = successes outs

  abbrev pub failures : List (Server S × Option Error) → List Error
  failures [] = []
  failures ((server, none) ∷ outs) = failures outs
  failures ((server, some e) ∷ outs) = e ∷ failures outs

  bind_each-Binds :
      {servers : List (Server S)} {s s' : S} {outs : List (Server S × Option Error)}
      → Binds servers s outs s'
      → bind_each servers s ≡ (
        s',
        record {
          bound = successes outs;
          bind_errs = failures outs;
          stderr = map warning (failures outs);
        },
      )
  unfolding bind_each
  bind_each-Binds (none_left s) = refl
  bind_each-Binds (binds server servers s s₁ s₂ none outs e b) = simp (e, bind_each-Binds b)
  bind_each-Binds (binds server servers s s₁ s₂ (some x) outs e b) = simp (e, bind_each-Binds b)

  Binds-length :
      {servers : List (Server S)} {s s' : S} {outs : List (Server S × Option Error)}
      → Binds servers s outs s'
      → length (failures outs) + length (successes outs) ≡ length servers
  Binds-length (none_left s) = omega arith
  Binds-length (binds server servers s s₁ s₂ none outs e b) = omega (arith, Binds-length b)
  Binds-length (binds server servers s s₁ s₂ (some x) outs e b) = omega (arith, Binds-length b)

  some_bound : (servers : List (Server S)) → servers ≢ [] → (length servers == 0) ≡ false
  some_bound [] n = absurd (n refl)
  some_bound (x ∷ servers) n = ground arith

  -- Every server is asked to bind, in order, and each failure is a warning on stderr. If no server
  -- bound, the result is an error that counts every server, names the likely cause and holds all
  -- the failures; otherwise it is the servers that bound, in order, with one more line when there
  -- were failures.
  pub bind_servers_reports :
      (servers : List (Server S)) (s s' : S) (outs : List (Server S × Option Error))
      → Binds servers s outs s'
      → let errs = failures outs in
        let n = length servers in
        let warnings = map warning errs in
        (successes outs ≡ []
          → bind_servers servers s
            ≡ (s', warnings, inl (none_bound n n (addr_in_use_hint errs) errs)))
        × (successes outs ≢ []
            → bind_servers servers s ≡ (
              s',
              if length errs == 0 then warnings else warnings ++ degraded (length errs) n ∷ [],
              inr (successes outs),
            ))
  unfolding bind_servers
  bind_servers_reports servers s s' outs b = (
    λ e.
        let all : length (failures outs) ≡ length servers =
          omega (arith, rw e at (Binds-length b)) in
        simp (bind_each-Binds b, e, all),
    λ e. elim (Bool-cases (length (failures outs) == 0)) [
      | inl z ↦
          let few : ltb 0 (length (failures outs)) ≡ false = ground arith in
          simp (bind_each-Binds b, some_bound (successes outs) e, z, few)
      | inr z ↦
          let few : ltb 0 (length (failures outs)) ≡ true = ground arith in
          simp (bind_each-Binds b, some_bound (successes outs) e, z, few)
    ],
  )
