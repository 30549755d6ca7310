-- ===== src/Gzip/Requests.antt =====
-- Compressed request bodies.
use servion.Base.{ℕ, true, false, List, ◌≡◌, refl, ◌∙◌}
use servion.Base.Int.{ℤ}
use servion.Text.{contains}
use servion.Http.{Request, Handler, Headers, get, del, same_key}
use servion.Http.Laws.{get-del}
use servion.Gzip.{is_gzipped, middleware, Codec, Config, compress_response}

abbrev plain_header : Headers → Headers
plain_header h = del "Content-Length" (del "Content-Encoding" h)

no_encoding : (h : Headers) → get "Content-Encoding" (plain_header h) ≡ ""
unfolding same_key
no_encoding h =
    get-del "Content-Encoding" "Content-Length" (del "Content-Encoding" h)
    ∙ get-del "Content-Encoding" "Content-Encoding" h

no_length : (h : Headers) → get "Content-Length" (plain_header h) ≡ ""
unfolding same_key
no_length h = get-del "Content-Length" "Content-Length" (del "Content-Encoding" h)

not_gzipped : (r : Request) → get "Content-Encoding" r.header ≡ "" → is_gzipped r ≡ false
unfolding is_gzipped contains
not_gzipped r e = rw e

-- A request whose body was compressed is handled as the request with the plain body and without the
-- headers Content-Encoding and Content-Length; a second middleware would not decompress it again.
pub middleware_decompresses :
    {S : Type 0} (codec : Codec) (cfg : Config) (next : Handler S) (r : Request) (s : S) (level : ℤ)
    (p : List ℕ)
    → is_gzipped r ≡ true
    → r.body ≡ codec.compress level p
    → (r' : Request) × (middleware codec cfg next r s ≡ compress_response codec cfg next r' s)
      × (r'.body ≡ p)
      × (r'.path ≡ r.path)
      × (get "Content-Encoding" r'.header ≡ "")
      × (get "Content-Length" r'.header ≡ "")
      × (is_gzipped r' ≡ false)
unfolding middleware
middleware_decompresses codec cfg next r s level p g b =
    let r' = record r { body = p; header = plain_header r.header } in
    (
      r',
      rw g (rw (b, codec.inverse)),
      refl,
      refl,
      no_encoding r.header,
      no_length r.header,
      not_gzipped r' (no_encoding r.header),
    )
