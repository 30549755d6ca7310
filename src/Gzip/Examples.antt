-- ===== src/Gzip/Examples.antt =====
-- Tests of the gzip middleware, and its theorems at concrete inputs.
use servion.Base.{ℕ, true, false, List, [], ◌∷◌, Option, none, some, ◌≡◌, refl, arith, eq_iff}
use servion.Base.Int.{pos}
use servion.Text.{split, trim_space, contains}
use servion.Http.{
  Request, Handler, Op, write, write_header, get, same_key, status, complete, body_allowed,
  sent_header,
}
use servion.Gzip.{
  Codec, Config, valid_level, accepts_gzip, compress_response, middleware, is_gzipped,
}
use servion.Gzip.Orderly.{decoded}
use servion.Gzip.Transparent.{compress_response_transparent}
use servion.Gzip.Levels.{invalid_level_mislabels}
use servion.Gzip.Requests.{middleware_decompresses}

-- A codec that puts a byte in front.
abbrev unmark : List ℕ → Option (List ℕ)
unmark [] = none
unmark (x ∷ xs) = some xs

abbrev marking : Codec
marking = record { compress = λ level p. 31 ∷ p; open_reader = unmark; inverse = λ level p. refl }

abbrev at_three : Config
at_three = record { level = pos 1; threshold = pos 3; skip_prefixes = [] }

abbrev writes : List Op → Handler (Unit {0})
writes ops r s = (s, ops)

abbrev zipped_request : Request
zipped_request = record {
  method = "GET";
  path = "/x";
  header = ("Accept-Encoding", "br, gzip") ∷ ("Content-Encoding", "gzip") ∷ [];
  body = 31 ∷ 7 ∷ [];
  remote_addr = "";
  auth = none;
  request_id = none;
}

abbrev large : Handler (Unit {0})
large = writes (write_header 201 ∷ write (1 ∷ 2 ∷ []) ∷ write (3 ∷ 4 ∷ []) ∷ [])

accepts_test : accepts_gzip zipped_request ≡ true
unfolding accepts_gzip get same_key split trim_space
accepts_test = refl

compress_response_transparent_example :
    let a = complete (compress_response marking at_three large) zipped_request tt in
    let d = complete large zipped_request tt in
    (status a ≡ status d)
    × (decoded marking a ≡ some d.body)
    × ((compress_response marking at_three large zipped_request tt).0 ≡ tt)
unfolding valid_level body_allowed
compress_response_transparent_example =
    compress_response_transparent marking at_three large zipped_request tt refl accepts_test
      (ground (arith, eq_iff "GET" "HEAD")) (refl, omega arith, tt) tt refl

abbrev bad_level : Config
bad_level = record at_three { level = pos 42 }

invalid_level_mislabels_example :
    let a =
      complete
        (compress_response marking bad_level (writes (write (1 ∷ 2 ∷ 3 ∷ []) ∷ [])))
        zipped_request
        tt in
    (status a ≡ some 200) × (sent_header "Content-Encoding" a ≡ "gzip") × (a.body ≡ 1 ∷ 2 ∷ 3 ∷ [])
unfolding valid_level
invalid_level_mislabels_example =
    invalid_level_mislabels marking bad_level (writes (write (1 ∷ 2 ∷ 3 ∷ []) ∷ [])) zipped_request
      tt (1 ∷ 2 ∷ 3 ∷ []) refl accepts_test (ground (arith, eq_iff "GET" "HEAD")) refl (λ e. cc)
      refl

is_gzipped_test : is_gzipped zipped_request ≡ true
unfolding is_gzipped get same_key contains
is_gzipped_test = refl

middleware_decompresses_test :
    (r' : Request) × (middleware marking at_three large zipped_request tt
      ≡ compress_response marking at_three large r' tt)
    × (r'.body ≡ 7 ∷ [])
    × (r'.path ≡ "/x")
    × (get "Content-Encoding" r'.header ≡ "")
    × (get "Content-Length" r'.header ≡ "")
    × (is_gzipped r' ≡ false)
middleware_decompresses_test =
    middleware_decompresses marking at_three large zipped_request tt (pos 1) (7 ∷ [])
      is_gzipped_test refl
