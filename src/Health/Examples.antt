-- ===== src/Health/Examples.antt =====
-- The theorems of the health handler at concrete inputs.
use servion.Base.{ℕ, true, List, [], ◌∷◌, some, none, ◌≡◌, ◌≢◌, ◌⊎◌, inl, refl}
use servion.Http.{Request, respond, status}
use servion.Runtime.{
  Runtime, State, start, call_shutdown, advance, Reachable, started, stepped, called, advanced,
  done, active,
}
use servion.Health.{Component, Config, HealthResponse, serve}
use servion.Health.Probes.{serve_active, serve_done}

abbrev stopped : State
stopped = advance (advance (advance (advance (call_shutdown true start))))

stopped-Reachable : Reachable stopped
stopped-Reachable =
    stepped
      (stepped (stepped (stepped (stepped started (called true _)) (advanced _)) (advanced _))
        (advanced _))
      (advanced _)

abbrev plain : Config
plain = record { health_pattern = "/healthz"; detailed = true }

abbrev text : HealthResponse → List ℕ
text answer = 123 ∷ 125 ∷ []

abbrev named : List (Component Runtime)
named = record { bean_name = "runtime"; get_stats = λ s. (s, ("name", "app") ∷ []) } ∷ []

abbrev probe : Request
probe = record {
  method = "GET";
  path = "/healthz";
  header = [];
  body = [];
  remote_addr = "";
  auth = none;
  request_id = none;
}

serve_done_example :
    status (respond (serve (λ s. s) text plain named) probe stopped.runtime) ≡ some 503
unfolding call_shutdown advance done
serve_done_example =
    serve_done (λ s. s) text plain named probe stopped.runtime stopped stopped-Reachable refl refl
      (inl refl)

serve_active_test :
    ((probe.method ≡ "GET") ⊎ (probe.method ≡ "HEAD")
      → status (respond (serve (λ s. s) text plain named) probe start.runtime) ≡ some 200)
    × (probe.method ≢ "GET"
        → probe.method ≢ "HEAD"
        → ((serve (λ s. s) text plain named probe start.runtime).0 ≡ start.runtime)
          × (status (respond (serve (λ s. s) text plain named) probe start.runtime) ≡ some 405))
unfolding active
serve_active_test = serve_active (λ s. s) text plain named probe start.runtime
