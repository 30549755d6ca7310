-- ===== src/Health/Probes.antt =====
-- What a probe learns of the runtime.
use servion.Base.{
  ℕ, true, false, not, ◌&&◌, str_eq-false, List, [], ◌∷◌, some, ◌≡◌, ◌≢◌, ◌⊎◌, refl, arith, eq_iff,
  if◌then◌else◌, str_eq,
}
use servion.Http.{Request, set_header, write_header, write, respond, status, run, fresh, error}
use servion.Runtime.{Runtime, State, Reachable, active, done}
use servion.Runtime.Once.{shutdown-Consistent}
use servion.Health.{Component, Config, HealthResponse, serve}

answered-status :
    (code : ℕ) (body : List ℕ)
    → status (
        run
          (set_header "Content-Type" "application/json" ∷ write_header code ∷ write body ∷ [])
          fresh)
      ≡ some code
unfolding run
answered-status code body = ground arith

module _ {S : Type 0} (runtime : S → Runtime) (json : HealthResponse → List ℕ) where
  -- A GET or HEAD probe is answered by 200 while the runtime is active and by 503 otherwise; any
  -- other method is answered by 405, and no state changes.
  pub serve_active :
      (cfg : Config) (components : List (Component S)) (r : Request) (s : S)
      → ((r.method ≡ "GET") ⊎ (r.method ≡ "HEAD")
          → status (respond (serve runtime json cfg components) r s)
            ≡ some (if active (runtime s) then 200 else 503))
        × (r.method ≢ "GET"
            → r.method ≢ "HEAD"
            → ((serve runtime json cfg components r s).0 ≡ s)
              × (status (respond (serve runtime json cfg components) r s) ≡ some 405))
  unfolding serve error run
  serve_active cfg components r s = (
    λ m.
        let asked : (not (str_eq r.method "GET") && not (str_eq r.method "HEAD")) ≡ false =
          ground (arith, eq_iff r.method "GET", eq_iff r.method "HEAD") in
        rw asked (answered-status _ _),
    λ g h. rw (str_eq-false r.method "GET" g, str_eq-false r.method "HEAD" h) (refl, refl),
  )

  -- Once Done of the runtime is closed, however its shutdown came about, a GET or HEAD probe is
  -- answered by 503.
  pub serve_done :
      (cfg : Config) (components : List (Component S)) (r : Request) (s : S) (state : State)
      → Reachable state
      → runtime s ≡ state.runtime
      → done (runtime s) ≡ true
      → (r.method ≡ "GET") ⊎ (r.method ≡ "HEAD")
      → status (respond (serve runtime json cfg components) r s) ≡ some 503
  serve_done cfg components r s state reach e d m =
      let seen = shutdown-Consistent state reach in
      let failed = seen.done_err (rw e at d) in
      let stopped : active (runtime s) ≡ false = rw e (seen.err_inactive (λ n. cc)) in
      rw stopped at ((serve_active cfg components r s).0 m)
