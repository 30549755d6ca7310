-- ===== src/Gzip.antt =====
-- gzip_middleware.go: the adaptive compression of responses and the decompression of requests.
-- compress/gzip is the codec; what is fed to a gzip.Writer is counted as written when it is closed.
pub mod Orderly
pub mod Writer
pub mod Transparent
pub mod Levels
pub mod Requests
mod Examples
use servion.Base.{
  ℕ, ◌+◌, String, Bool, true, false, not, ◌&&◌, ◌||◌, List, [], ◌∷◌, ◌++◌, Option, none, some, ◌≡◌,
  any, length, if◌then◌else◌, str_eq, leb, ltb, ◌==◌,
}
use servion.Base.Int.{ℤ, pos, negsuc, at_least}
use servion.Text.{has_prefix, contains, split, trim_space, itoa}
use servion.Http.{
  Request, Handler, Op, set_header, add_header, del_header, write_header, write, panic, Middleware,
  error, get, del,
}

-- compress/gzip at a level. `open_reader` is gzip.NewReader: none if the text does not start with a
-- header, and otherwise what the reader yields.
pub record Codec : Type 0 where
  pub compress : ℤ → List ℕ → List ℕ
  pub open_reader : List ℕ → Option (List ℕ)
  pub inverse : (level : ℤ) (p : List ℕ) → open_reader (compress level p) ≡ some p

-- The levels that gzip.NewWriterLevel takes: from HuffmanOnly, -2, to BestCompression, 9.
unfoldable pub valid_level : ℤ → Bool
valid_level (pos n) = leb n 9
valid_level (negsuc n) = leb n 1

-- The configured fields of implGzipMiddleware.
pub record Config : Type 0 where
  pub level : ℤ
  pub threshold : ℤ
  pub skip_prefixes : List String

-- Match
unfoldable pub applies : Config → String → Bool
applies cfg pattern = not (any (λ p. has_prefix pattern p) cfg.skip_prefixes)

-- adaptiveGzipWriter: `status` is 0 until it is set, `gw` holds what the gzip.Writer was fed.
pub record AdaptiveWriter : Type 0 where
  pub buf : List ℕ
  pub size : ℕ
  pub gw : Option (List ℕ)
  pub started : Bool
  pub status : ℕ

abbrev pub new_writer : AdaptiveWriter
new_writer = record { buf = []; size = 0; gw = none; started = false; status = 0 }

abbrev pub or_ok : ℕ → ℕ
or_ok status = if status == 0 then 200 else status

-- startGzip: the calls on the inner writer. A bad level leaves the buffer and no gzip.Writer.
unfoldable pub start_gzip : Config → AdaptiveWriter → AdaptiveWriter × List Op
unfolding valid_level
start_gzip cfg w =
    let opened = record w { started = true; status = or_ok w.status } in
    (
      if valid_level cfg.level then record opened { gw = some w.buf; buf = [] } else opened,
      set_header "Content-Encoding" "gzip"
          ∷ add_header "Vary" "Accept-Encoding"
          ∷ del_header "Content-Length"
          ∷ write_header (or_ok w.status)
          ∷ [],
    )

-- Write, while the buffer is still filled.
buffer : Config → AdaptiveWriter → List ℕ → AdaptiveWriter × List Op
unfolding start_gzip
buffer cfg w p =
    let filled = record w { buf = w.buf ++ p } in
    if at_least (length (w.buf ++ p)) cfg.threshold then start_gzip cfg filled else (filled, [])

-- The writer behind one call of the handler with the calls that reach the inner writer; none is a
-- panic, as the Write of a nil gzip.Writer is.
unfoldable pub intercept : Config → AdaptiveWriter → Op → Option (AdaptiveWriter × List Op)
unfolding buffer
intercept cfg w (write_header status) =
    some ((if w.status == 0 then record w { status = status } else w), [])
intercept cfg w (write p) =
    let sized = record w { size = w.size + length p } in
    if not w.started
    then some (buffer cfg sized p)
    else elim w.gw [ none ↦ none | some fed ↦ some (record sized { gw = some (fed ++ p) }, []) ]
intercept cfg w panic = none
intercept cfg w (set_header name value) = some (w, set_header name value ∷ [])
intercept cfg w (add_header name value) = some (w, add_header name value ∷ [])
intercept cfg w (del_header name) = some (w, del_header name ∷ [])

-- io.Copy of a buffer writes nothing if the buffer is empty.
unfoldable pub copy : List ℕ → List Op
copy [] = []
copy (x ∷ xs) = write (x ∷ xs) ∷ []

-- Close
unfoldable pub close : Codec → Config → AdaptiveWriter → List Op
close codec cfg w = elim (if w.started then w.gw else none) [
  | some fed ↦ write (codec.compress cfg.level fed) ∷ []
  | none ↦ if ltb 0 (length w.buf) then write_header (or_ok w.status) ∷ write w.buf ∷ [] else []
]

-- What Middleware does once the handler has returned, and then the deferred Close.
unfoldable pub finish : Codec → Config → AdaptiveWriter → List Op
unfolding close copy
finish codec cfg w =
    if not w.started
    then (set_header "Content-Length" (itoa (length w.buf))
        ∷ write_header (or_ok w.status)
        ∷ copy w.buf)
      ++ close codec cfg (record w { buf = []; status = or_ok w.status })
    else close codec cfg w

-- The calls on the inner writer for all calls of the handler; a panic runs the deferred Close and
-- goes on.
unfoldable pub adapt : Codec → Config → AdaptiveWriter → List Op → List Op
unfolding intercept finish
adapt codec cfg w [] = finish codec cfg w
adapt codec cfg w (op ∷ ops) = elim (intercept cfg w op) [
  | none ↦ close codec cfg w ++ panic ∷ []
  | some (w', out) ↦ out ++ adapt codec cfg w' ops
]

unfoldable pub accepts_gzip : Request → Bool
accepts_gzip r =
    any (λ v. str_eq (trim_space v) "gzip") (split (get "Accept-Encoding" r.header) b',')

unfoldable pub is_gzipped : Request → Bool
is_gzipped r = contains (get "Content-Encoding" r.header) "gzip"

-- decompressRequest
unfoldable pub decompress_request : Codec → Request → Option Request
decompress_request codec r = elim (codec.open_reader r.body) [
  | none ↦ none
  | some p ↦
      some (record r { body = p; header = del "Content-Length" (del "Content-Encoding" r.header) })
]

module _ {S : Type 0} (codec : Codec) (cfg : Config) where
  unfoldable pub compress_response : Handler S → Handler S
  unfolding adapt
  compress_response next r s =
      if not (accepts_gzip r) || str_eq r.method "HEAD"
      then next r s
      else let (s', ops) = next r s in (s', adapt codec cfg new_writer ops)

  unfoldable pub middleware : Handler S → Handler S
  unfolding compress_response decompress_request
  middleware next r s =
      if is_gzipped r
      then elim (decompress_request codec r) [
        | none ↦ (s, error "invalid gzip request body" 400)
        | some r' ↦ compress_response next r' s
      ]
      else compress_response next r s

  unfoldable pub gzip_middleware : ℤ → Middleware S
  unfolding middleware applies
  gzip_middleware order = record { bean_order = order; applies = applies cfg; wrap = middleware }
