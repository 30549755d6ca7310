-- ===== src/Gzip/Levels.antt =====
-- A gzip.level that compress/gzip refuses.
use servion.Base.{ℕ, true, false, List, [], ◌∷◌, some, ◌≡◌, ◌≢◌, refl, arith, length, lt→ltb}
use servion.Base.Int.{at_least}
use servion.Http.{
  Request, Handler, write, get, same_key, run, status, sent_header, complete, send_header,
}
use servion.Gzip.{Codec, Config, valid_level, adapt, compress_response, accepts_gzip}
use servion.Gzip.Transparent.{compress_response_adapts}

-- With a level that gzip.NewWriterLevel refuses, a body written at once that reaches the threshold
-- goes out as it is under the header "Content-Encoding: gzip".
pub invalid_level_mislabels :
    {S : Type 0} (codec : Codec) (cfg : Config) (next : Handler S) (r : Request) (s : S)
    (p : List ℕ)
    → valid_level cfg.level ≡ false
    → accepts_gzip r ≡ true
    → r.method ≢ "HEAD"
    → (next r s).1 ≡ write p ∷ []
    → p ≢ []
    → at_least (length p) cfg.threshold ≡ true
    → let answer = complete (compress_response codec cfg next) r s in
      (status answer ≡ some 200)
      × (sent_header "Content-Encoding" answer ≡ "gzip")
      × (answer.body ≡ p)
unfolding run get same_key adapt send_header
invalid_level_mislabels codec cfg next r s [] v a m e n big = absurd (n refl)
invalid_level_mislabels codec cfg next r s (x ∷ p) v a m e n big =
    rw
      (
        compress_response_adapts codec cfg next r s a m,
        e,
        big,
        v,
        lt→ltb 0 (length (x ∷ p)) (omega arith),
      )
      (refl, refl, refl)
