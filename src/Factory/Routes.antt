-- ===== src/Factory/Routes.antt =====
-- Which routes the handlers get.
use servion.Base.{
  String, Bool, true, false, List, [], ◌∷◌, Option, none, some, ◌≡◌, ◌≢◌, ap, subst, inl, inr,
  arith, if◌then◌else◌, str_eq, eq_iff, eq_refl, find, find-put, put, Bool-cases, All,
}
use servion.Options.{enabled}
use servion.Http.{Handler, Middleware}
use servion.Factory.{HttpHandler, Route, register, wrap_all}

enabled-put :
    (key name : String) (visited : List (String × Bool))
    → enabled (put key true visited) name ≡ (if str_eq key name then true else enabled visited name)
unfolding enabled
enabled-put key name visited = ground (arith, find-put key name true visited)

module _ {S : Type 0} where
  -- The first handler of the list with the pattern.
  abbrev pub first_handler : String → List (HttpHandler S) → Option (HttpHandler S)
  first_handler pattern [] = none
  first_handler pattern (h ∷ hs) =
      if str_eq h.pattern pattern then some h else first_handler pattern hs

  abbrev pub wrapped : List (Middleware S) → String → Option (HttpHandler S) → Option (Handler S)
  wrapped ms pattern none = none
  wrapped ms pattern (some h) = some (wrap_all ms pattern h.serve)

  register-find :
      (ms : List (Middleware S)) (hs : List (HttpHandler S)) (visited : List (String × Bool))
      (pattern : String)
      → find pattern (register ms hs visited).0
        ≡ (if enabled visited pattern then none else wrapped ms pattern (first_handler pattern hs))
  unfolding register find
  register-find ms [] visited pattern = ground arith
  register-find ms (h ∷ hs) visited pattern =
      let again = register-find ms hs visited pattern in
      let later = register-find ms hs (put h.pattern true visited) pattern in
      let same = λ (e : str_eq h.pattern pattern ≡ true). (eq_iff h.pattern pattern).0 e in
      elim (Bool-cases (enabled visited h.pattern)) [
        | inl old ↦ rw old (elim (Bool-cases (str_eq h.pattern pattern)) [
          | inl e ↦
              let v = subst (λ p. enabled visited p ≡ true) (same e) old in rw v (rw v at again)
          | inr e ↦ rw e again
        ])
        | inr new ↦ rw new (elim (Bool-cases (str_eq h.pattern pattern)) [
          | inl e ↦
              let v = subst (λ p. enabled visited p ≡ false) (same e) new in
              rw (e, v) (ap (λ p. some (wrap_all ms p h.serve)) (same e))
          | inr e ↦ rw e (rw (enabled-put h.pattern pattern visited, e) at later)
        ])
      ]

  -- No pattern is registered twice.
  abbrev pub Fresh : String → List (Route S) → Type 0
  Fresh pattern routes = All (λ route. route.0 ≢ pattern) routes

  abbrev pub Distinct : List (Route S) → Type 0
  Distinct [] = Unit
  Distinct (route ∷ routes) = Fresh route.0 routes × Distinct routes

  register-Fresh :
      (ms : List (Middleware S)) (hs : List (HttpHandler S)) (visited : List (String × Bool))
      (pattern : String)
      → enabled visited pattern ≡ true
      → Fresh pattern (register ms hs visited).0
  unfolding register
  register-Fresh ms [] visited pattern v = tt
  register-Fresh ms (h ∷ hs) visited pattern v = elim (Bool-cases (enabled visited h.pattern)) [
    | inl old ↦ rw old (register-Fresh ms hs visited pattern v)
    | inr new ↦ rw new (
      λ e. cc (subst (λ p. enabled visited p ≡ false) e new, v),
      register-Fresh ms hs (put h.pattern true visited) pattern
          (rw (enabled-put h.pattern pattern visited) (ground arith)),
    )
  ]

  register-Distinct :
      (ms : List (Middleware S)) (hs : List (HttpHandler S)) (visited : List (String × Bool))
      → Distinct (register ms hs visited).0
  unfolding register
  register-Distinct ms [] visited = tt
  register-Distinct ms (h ∷ hs) visited = elim (Bool-cases (enabled visited h.pattern)) [
    | inl old ↦ rw old (register-Distinct ms hs visited)
    | inr new ↦ rw new (
      register-Fresh ms hs (put h.pattern true visited) h.pattern
          (rw (enabled-put h.pattern h.pattern visited, eq_refl h.pattern)),
      register-Distinct ms hs (put h.pattern true visited),
    )
  ]

  -- The handlers' routes have distinct patterns, and each pattern leads to the first handler that
  -- has it, behind the middlewares that match the pattern; a later handler with that pattern is
  -- dropped.
  pub register_first :
      (ms : List (Middleware S)) (hs : List (HttpHandler S))
      → Distinct (register ms hs []).0
        × ((pattern : String)
            → find pattern (register ms hs []).0 ≡ wrapped ms pattern (first_handler pattern hs))
  unfolding enabled find
  register_first ms hs = (register-Distinct ms hs [], λ pattern. register-find ms hs [] pattern)
