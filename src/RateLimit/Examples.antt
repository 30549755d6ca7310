-- ===== src/RateLimit/Examples.antt =====
-- Tests of the limiter, and its theorems at concrete inputs.
use servion.Base.{
  ℕ, ◌≤◌, true, false, List, [], ◌∷◌, none, some, ◌≡◌, refl, arith, find, put, keep, eq_iff,
}
use servion.Base.Int.{pos}
use servion.Text.{split, trim_space, itoa}
use servion.Http.{Request, Handler, write, Cell, Clock, respond, status, sent_header, get, same_key}
use servion.RateLimit.{
  Bucket, Config, Buckets, Event, request, tick, step, decisions, admit, admit_bucket,
  clean_expired,
}
use servion.RateLimit.Isolation.{admit_isolated}
use servion.RateLimit.Cleaning.{clean_unobservable, requests}
use servion.RateLimit.Window.{grants, grants_bounded}
use servion.RateLimit.Burst.{burst, burst_passes}
use servion.RateLimit.Middleware.{client_of, middleware, middleware_rejects}

-- Two requests in each ten nanoseconds.
abbrev two_in_ten : Config
two_in_ten = record {
  prefixes = "/api" ∷ [];
  limit = pos 2;
  interval = 10;
  client_id_header = "X-Forwarded-For";
}

abbrev history : List Event
history =
    request "a" 100 100
    ∷ request "a" 105 105
    ∷ request "a" 106 106
    ∷ request "b" 107 107
    ∷ tick 300
    ∷ request "a" 301 301
    ∷ []

decisions_test : decisions two_in_ten history [] ≡ true ∷ true ∷ false ∷ true ∷ true ∷ []
unfolding decisions step admit admit_bucket clean_expired find put keep
decisions_test = refl

admit_isolated_test :
    (find "b" (admit two_in_ten 1 1 "a" []).1 ≡ none)
    × ((admit two_in_ten 1 1 "b" (admit two_in_ten 1 1 "a" []).1).0
        ≡ (admit two_in_ten 1 1 "b" []).0)
unfolding find
admit_isolated_test = admit_isolated two_in_ten 1 1 "a" "b" [] (ground (arith, eq_iff "a" "b"))

clean_unobservable_example :
    decisions two_in_ten history [] ≡ decisions two_in_ten (requests history) []
clean_unobservable_example =
    clean_unobservable two_in_ten 100 history [] (omega arith)
      (refl, (refl, (refl, (refl, (refl, tt)))))

abbrev short : List Event
short = request "a" 100 100 ∷ request "a" 105 105 ∷ request "a" 110 110 ∷ []

grants_bounded_example : grants two_in_ten "a" short [] ≤ 4
grants_bounded_example = grants_bounded two_in_ten "a" 100 short [] (omega arith)

burst_passes_example : grants two_in_ten "a" (burst two_in_ten "a" 100 1) [] ≡ 4
unfolding find
burst_passes_example = burst_passes two_in_ten "a" 100 1 [] refl refl

-- The state is the buckets and the clock.
abbrev World : Type 0
World = Buckets × ℕ

abbrev world_buckets : Cell World Buckets
world_buckets = record { read = λ s. s.0; write = λ m s. (m, s.1); read_write = λ m s. refl }

abbrev world_clock : Clock World
world_clock = record { now = λ s. (s, s.1) }

abbrev hello : Handler World
hello r s = (s, write (b'h' ∷ []) ∷ [])

abbrev from_a : Request
from_a = record {
  method = "GET";
  path = "/api/x";
  header = ("X-Forwarded-For", " a , proxy") ∷ [];
  body = [];
  remote_addr = "10.0.0.1:80";
  auth = none;
  request_id = none;
}

abbrev spent : Bucket
spent = record { count = 2; last_reset = 100 }

abbrev full_world : World
full_world = (("a", spent) ∷ [], 104)

client_of_test : client_of two_in_ten from_a ≡ some "a"
unfolding client_of get same_key trim_space split
client_of_test = refl

middleware_rejects_test :
    let wrapped = middleware two_in_ten world_buckets world_clock hello in
    let answer = respond wrapped from_a full_world in
    (find "a" (wrapped from_a full_world).0.0 ≡ some spent)
    × (status answer ≡ some 429)
    × (sent_header "Retry-After" answer ≡ itoa 0)
unfolding find
middleware_rejects_test =
    middleware_rejects two_in_ten world_buckets world_clock hello from_a full_world "a" spent
      client_of_test refl refl (omega arith)
