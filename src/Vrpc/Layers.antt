-- ===== src/Vrpc/Layers.antt =====
-- The order and the conditions of the interceptors of a resilience policy.
use servion.Base.{
  ℕ, ◌≤◌, suc, Bool, true, false, ◌&&◌, ◌||◌, List, [], ◌∷◌, ◌++◌, ◌≡◌, refl, ◌∙◌, if◌then◌else◌,
  any, ◌==◌, arith,
}
use servion.Base.Int.{ℤ, exceeds}
use servion.Vrpc.Resilience.{
  ClientInterceptor, rate_limit, bulkhead, circuit_breaker, retry, timeout, ResiliencePolicyFactory,
  get_int, interceptors,
}

-- The layer of an interceptor, the outermost first.
abbrev pub layer : ClientInterceptor → ℕ
layer (rate_limit per_sec burst) = 0
layer (bulkhead max) = 1
layer (circuit_breaker threshold cooldown) = 2
layer (retry attempts base max) = 3
layer (timeout mls) = 4

-- Each interceptor stands in a layer behind those before it, and in one from the given on.
abbrev pub Inward : ℕ → List ClientInterceptor → Type 0
Inward from [] = Unit
Inward from (x ∷ xs) = (from ≤ layer x) × Inward (suc (layer x)) xs

abbrev pub has_layer : ℕ → List ClientInterceptor → Bool
has_layer k ics = any (λ x. layer x == k) ics

abbrev given : Bool → ClientInterceptor → List ClientInterceptor
given b x = if b then x ∷ [] else []

Inward-weaken : (m n : ℕ) (xs : List ClientInterceptor) → n ≤ m → Inward m xs → Inward n xs
Inward-weaken m n [] le h = tt
Inward-weaken m n (x ∷ xs) le (a, h) = (omega arith, h)

Inward-given :
    (n : ℕ) (b : Bool) (x : ClientInterceptor) (rest : List ClientInterceptor)
    → n ≤ layer x
    → Inward (suc (layer x)) rest
    → Inward n (given b x ++ rest)
Inward-given n true x rest le h = (le, h)
Inward-given n false x rest le h = Inward-weaken (suc (layer x)) n rest (omega arith) h

has_layer-given :
    (k : ℕ) (b : Bool) (x : ClientInterceptor) (rest : List ClientInterceptor)
    → has_layer k (given b x ++ rest) ≡ ((b && layer x == k) || has_layer k rest)
has_layer-given k true x rest = ground arith
has_layer-given k false x rest = refl

Inward-last : (b : Bool) (x : ClientInterceptor) → 4 ≤ layer x → Inward 4 (given b x)
Inward-last true x le = (le, tt)
Inward-last false x le = tt

has_layer_last :
    (k : ℕ) (b : Bool) (x : ClientInterceptor) → has_layer k (given b x) ≡ (b && layer x == k)
has_layer_last k true x = ground arith
has_layer_last k false x = refl

-- The layers of a policy with those five interceptors, each given or not.
layers_given :
    (a b c d e : Bool) (per_sec burst max_conc threshold cooldown attempts base max_base mls : ℤ)
    → let ics =
        given a (rate_limit per_sec burst)
        ++ (given b (bulkhead max_conc)
            ++ (given c (circuit_breaker threshold cooldown)
                ++ (given d (retry attempts base max_base) ++ given e (timeout mls)))) in
      Inward 0 ics
      × (has_layer 0 ics ≡ a)
      × (has_layer 1 ics ≡ b)
      × (has_layer 2 ics ≡ c)
      × (has_layer 3 ics ≡ d)
      × (has_layer 4 ics ≡ e)
layers_given a b c d e per_sec burst max_conc threshold cooldown attempts base max_base mls =
    let limits = rate_limit per_sec burst in
    let holds = bulkhead max_conc in
    let breaks = circuit_breaker threshold cooldown in
    let retries = retry attempts base max_base in
    let last = given e (timeout mls) in
    let from_retry = given d retries ++ last in
    let from_breaker = given c breaks ++ from_retry in
    let from_bulkhead = given b holds ++ from_breaker in
    let found : (k : ℕ)
        → has_layer k (given a limits ++ from_bulkhead) ≡ (
            (a && 0 == k)
            || ((b && 1 == k) || ((c && 2 == k) || ((d && 3 == k) || (e && 4 == k))))) =
      λ k.
        rw
          (
            has_layer-given k a limits from_bulkhead,
            has_layer-given k b holds from_breaker,
            has_layer-given k c breaks from_retry,
            has_layer-given k d retries last,
            has_layer_last k e (timeout mls),
          )
          refl in
    (
      Inward-given 0 a limits from_bulkhead (omega arith) (
          Inward-given 1 b holds from_breaker (omega arith) (
            Inward-given 2 c breaks from_retry (omega arith) (
              Inward-given 3 d retries last (omega arith)
                (Inward-last e (timeout mls) (omega arith))))),
      found 0 ∙ ground arith,
      found 1 ∙ ground arith,
      found 2 ∙ ground arith,
      found 3 ∙ ground arith,
      found 4 ∙ ground arith,
    )

-- The interceptors of a policy stand in the order rate limit, bulkhead, circuit breaker, retry and
-- timeout, outermost first, each once at most; each is there exactly if its own property is above
-- 0, and the retry exactly if its attempts are more than 1.
pub interceptors_layered :
    (t : ResiliencePolicyFactory)
    → let ics = interceptors t in
      Inward 0 ics
      × (has_layer 0 ics ≡ exceeds (get_int t "rate-limit.per-second" 0) 0)
      × (has_layer 1 ics ≡ exceeds (get_int t "bulkhead.max-concurrent" 0) 0)
      × (has_layer 2 ics ≡ exceeds (get_int t "circuit-breaker.threshold" 0) 0)
      × (has_layer 3 ics ≡ exceeds (get_int t "retry.max-attempts" 0) 1)
      × (has_layer 4 ics ≡ exceeds (get_int t "timeout-ms" 0) 0)
unfolding interceptors
interceptors_layered t =
    layers_given (exceeds (get_int t "rate-limit.per-second" 0) 0)
      (exceeds (get_int t "bulkhead.max-concurrent" 0) 0)
      (exceeds (get_int t "circuit-breaker.threshold" 0) 0)
      (exceeds (get_int t "retry.max-attempts" 0) 1) (exceeds (get_int t "timeout-ms" 0) 0) _ _ _ _
      _ _ _ _ _
