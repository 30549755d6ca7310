-- ===== src/Vrpc/Resilience.antt =====
-- vrpc/resilience.go: the interceptors that the properties configure.
use Prim.Native.String
use servion.Base.{ℕ, String, List, [], ◌∷◌, ◌++◌, if◌then◌else◌}
use servion.Base.Int.{ℤ, pos, exceeds}
use servion.Factory.{Properties}

-- The interceptors of value-rpc/resilience; a time is in milliseconds.
pub data ClientInterceptor : Type 0 where
  rate_limit : ℤ → ℤ → ClientInterceptor
  bulkhead : ℤ → ClientInterceptor
  circuit_breaker : ℤ → ℤ → ClientInterceptor
  retry : ℤ → ℤ → ℤ → ClientInterceptor
  timeout : ℤ → ClientInterceptor

-- implResiliencePolicyFactory
pub record ResiliencePolicyFactory : Type 0 where
  pub bean_name : String
  pub properties : Properties

-- GetInt of a property of the policy.
abbrev pub get_int : ResiliencePolicyFactory → String → ℕ → ℤ
get_int t suffix default =
    t.properties.get_int (String.◌++◌ t.bean_name (String.◌++◌ ".resilience." suffix)) (pos default)

-- Object
unfoldable pub interceptors : ResiliencePolicyFactory → List ClientInterceptor
interceptors t =
    let per_sec = get_int t "rate-limit.per-second" 0 in
    let max_conc = get_int t "bulkhead.max-concurrent" 0 in
    let threshold = get_int t "circuit-breaker.threshold" 0 in
    let max_attempts = get_int t "retry.max-attempts" 0 in
    let timeout_mls = get_int t "timeout-ms" 0 in
    (if exceeds per_sec 0 then rate_limit per_sec (get_int t "rate-limit.burst" 1) ∷ [] else [])
    ++ ((if exceeds max_conc 0 then bulkhead max_conc ∷ [] else [])
        ++ ((if exceeds threshold 0
              then circuit_breaker threshold (get_int t "circuit-breaker.cooldown-ms" 10000) ∷ []
              else [])
            ++ ((if exceeds max_attempts 1
                  then retry max_attempts (get_int t "retry.backoff-ms" 50)
                      (get_int t "retry.max-backoff-ms" 1000)
                    ∷ []
                  else [])
                ++ (if exceeds timeout_mls 0 then timeout timeout_mls ∷ [] else []))))
