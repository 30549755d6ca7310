-- ===== src/Gzip/Transparent.antt =====
-- Compression does not change what the client reads.
use servion.Base.{true, false, [], some, ◌≡◌, ◌≢◌, refl, str_eq-false}
use servion.Http.{Request, Handler, get, status, complete, body_allowed}
use servion.Gzip.{Codec, Config, new_writer, valid_level, adapt, compress_response, accepts_gzip}
use servion.Gzip.Orderly.{first_status, Ruled, Unencoded, Ruled-Orderly, decoded, run-Orderly}
use servion.Gzip.Writer.{adapt-filling}

pub compress_response_adapts :
    {S : Type 0} (codec : Codec) (cfg : Config) (next : Handler S) (r : Request) (s : S)
    → accepts_gzip r ≡ true
    → r.method ≢ "HEAD"
    → compress_response codec cfg next r s ≡ ((next r s).0, adapt codec cfg new_writer (next r s).1)
unfolding compress_response
compress_response_adapts codec cfg next r s a m = rw (a, str_eq-false r.method "HEAD" m)

-- With a valid level, a client that accepts gzip and does not ask by HEAD gets the status that the
-- handler would send with no middleware, and a body that, decompressed where Content-Encoding says
-- so, is the body that the handler would send; the state is the handler's. The handler does not
-- panic, sets statuses of 200 or more only, none behind its first write, and no Content-Encoding of
-- its own, and the status that it settles on takes a body.
pub compress_response_transparent :
    {S : Type 0} (codec : Codec) (cfg : Config) (next : Handler S) (r : Request) (s : S)
    → valid_level cfg.level ≡ true
    → accepts_gzip r ≡ true
    → r.method ≢ "HEAD"
    → Ruled false (next r s).1
    → Unencoded (next r s).1
    → body_allowed (first_status 0 (next r s).1) ≡ true
    → let zipped = complete (compress_response codec cfg next) r s in
      let plain = complete next r s in
      (status zipped ≡ status plain)
      × (decoded codec zipped ≡ some plain.body)
      × ((compress_response codec cfg next r s).0 ≡ (next r s).0)
unfolding get
compress_response_transparent codec cfg next r s v a m rules u b =
    let ops = (next r s).1 in
    let o = Ruled-Orderly false ops rules u in
    let (st, body) = run-Orderly ops [] o b in
    let (st', body') = adapt-filling codec cfg [] 0 0 [] false ops v refl o b in
    rw (compress_response_adapts codec cfg next r s a m, st, body) (st', body', refl)
