-- ===== src/Gzip/Writer.antt =====
-- adaptiveGzipWriter under a handler that keeps the rules.
use mathlib.Core.List.{append-nil, append_assoc}
use servion.Base.{
  ℕ, ◌+◌, String, Bool, true, false, List, [], ◌∷◌, ◌++◌, none, some, ◌≡◌, refl, ◌∙◌, inl, inr,
  arith, length, if◌then◌else◌, ◌==◌, Bool-cases,
}
use servion.Base.Int.{at_least}
use servion.Text.{itoa}
use servion.Http.{
  Op, set_header, add_header, del_header, write_header, write, panic, Response, Headers, get, set,
  add, del, same_key, run, status, send_header, body_allowed,
}
use servion.Http.Laws.{get-set, get-del, get-add_other, run-append}
use servion.Gzip.{
  Codec, Config, AdaptiveWriter, or_ok, valid_level, start_gzip, intercept, finish, adapt,
}
use servion.Gzip.Orderly.{written, first_status, Orderly, decoded, first_status-Orderly}

module _ (codec : Codec) (cfg : Config) where
  abbrev zipping : List ℕ → ℕ → List ℕ → ℕ → AdaptiveWriter
  zipping buf size fed s = record {
    buf = buf;
    size = size;
    gw = some fed;
    started = true;
    status = s;
  }

  abbrev answered : Headers → ℕ → Headers → Response
  answered h₀ st h = record { header = h₀; sent = some (st, h); body = [] }

  -- Behind the start of the compression everything goes into one compressed body.
  adapt-zipping :
      (buf : List ℕ) (size : ℕ) (fed : List ℕ) (s : ℕ) (h₀ : Headers) (st : ℕ) (h : Headers)
      (ops : List Op)
      → Orderly true ops
      → body_allowed st ≡ true
      → let r = run (adapt codec cfg (zipping buf size fed s) ops) (answered h₀ st h) in
        (r.sent ≡ some (st, h)) × (r.body ≡ codec.compress cfg.level (fed ++ written ops))
  unfolding adapt run
  adapt-zipping buf size fed s h₀ st h [] o b = rw b (refl, rw append-nil)
  adapt-zipping buf size fed s h₀ st h (set_header n v ∷ ops) o b =
      adapt-zipping buf size fed s _ st h ops o.1 b
  adapt-zipping buf size fed s h₀ st h (add_header n v ∷ ops) o b =
      adapt-zipping buf size fed s _ st h ops o.1 b
  adapt-zipping buf size fed s h₀ st h (del_header n ∷ ops) o b =
      adapt-zipping buf size fed s _ st h ops o b
  adapt-zipping buf size fed s h₀ st h (write_header c ∷ ops) o b = cc (o.0)
  adapt-zipping buf size fed s h₀ st h (write p ∷ ops) o b =
      rw (← append_assoc fed p (written ops))
        (adapt-zipping buf (size + length p) (fed ++ p) s h₀ st h ops o b)
  adapt-zipping buf size fed s h₀ st h (panic ∷ ops) o b = absurd o

  -- The client gets the status and, decompressed, the body.
  abbrev pub Delivers : ℕ → List ℕ → Response → Type 0
  Delivers st p r = (status r ≡ some st) × (decoded codec r ≡ some p)

  Delivers-zipped :
      (st : ℕ) (p : List ℕ) (h : Headers) (r : Response)
      → get "Content-Encoding" h ≡ "gzip"
      → (r.sent ≡ some (st, h)) × (r.body ≡ codec.compress cfg.level p)
      → Delivers st p (send_header 200 r)
  unfolding send_header
  Delivers-zipped st p h r e (s, b) =
      let same : send_header 200 r ≡ r = simp (s, send_header) in
      rw same (rw s, rw s (rw (e, b) (codec.inverse cfg.level p)))

  Delivers-plain :
      (st : ℕ) (h₀ h : Headers) (p : List ℕ)
      → get "Content-Encoding" h ≡ ""
      → Delivers st p (send_header 200 (record { header = h₀; sent = some (st, h); body = p }))
  unfolding send_header
  Delivers-plain st h₀ h p e = (refl, rw e)

  abbrev filling : List ℕ → ℕ → ℕ → AdaptiveWriter
  filling buf size s = record { buf = buf; size = size; gw = none; started = false; status = s }

  abbrev waiting : Headers → Response
  waiting h = record { header = h; sent = none; body = [] }

  get-length :
      (value : String) (h : Headers)
      → get "Content-Encoding" (set "Content-Length" value h) ≡ get "Content-Encoding" h
  unfolding same_key
  get-length value h = get-set "Content-Encoding" "Content-Length" value h

  finish-Delivers :
      (buf : List ℕ) (size s : ℕ) (h : Headers)
      → get "Content-Encoding" h ≡ ""
      → body_allowed (or_ok s) ≡ true
      → Delivers
          (or_ok s)
          buf
          (send_header 200 (run (finish codec cfg (filling buf size s)) (waiting h)))
  unfolding finish run
  finish-Delivers [] size s h e b = (refl, rw (get-length (itoa 0) h, e))
  finish-Delivers (x ∷ buf) size s h e b = rw b (
      Delivers-plain (or_ok s) (set "Content-Length" (itoa (length (x ∷ buf))) h)
        (set "Content-Length" (itoa (length (x ∷ buf))) h) (x ∷ buf)
        (get-length (itoa (length (x ∷ buf))) h ∙ e))

  -- The calls that start the compression.
  start_gzip-run :
      (buf : List ℕ) (size s : ℕ) (h : Headers)
      → valid_level cfg.level ≡ true
      → (h' : Headers) × (get "Content-Encoding" h' ≡ "gzip")
        × ((start_gzip cfg (filling buf size s)).0 ≡ zipping [] size buf (or_ok s))
        × (run (start_gzip cfg (filling buf size s)).1 (waiting h) ≡ answered h' (or_ok s) h')
  unfolding start_gzip run get same_key
  start_gzip-run buf size s h v = (
    del "Content-Length" (add "Vary" "Accept-Encoding" (set "Content-Encoding" "gzip" h)),
    refl,
    rw v,
    refl,
  )

  adapt-step :
      (w w' : AdaptiveWriter) (op : Op) (out ops : List Op) (r : Response)
      → intercept cfg w op ≡ some (w', out)
      → run (adapt codec cfg w (op ∷ ops)) r ≡ run (adapt codec cfg w' ops) (run out r)
  unfolding adapt
  adapt-step w w' op out ops r e = rw (e, adapt) (run-append out (adapt codec cfg w' ops) r)

  intercept-big :
      (buf : List ℕ) (size s : ℕ) (p : List ℕ)
      → at_least (length (buf ++ p)) cfg.threshold ≡ true
      → intercept cfg (filling buf size s) (write p)
        ≡ some (start_gzip cfg (filling (buf ++ p) (size + length p) s))
  unfolding intercept
  intercept-big buf size s p big = rw big

  adapt-big :
      (buf : List ℕ) (size s : ℕ) (h : Headers) (p : List ℕ) (ops : List Op)
      → valid_level cfg.level ≡ true
      → Orderly true ops
      → body_allowed (first_status s ops) ≡ true
      → at_least (length (buf ++ p)) cfg.threshold ≡ true
      → Delivers
          (first_status s ops)
          (buf ++ (p ++ written ops))
          (send_header 200 (run (adapt codec cfg (filling buf size s) (write p ∷ ops)) (waiting h)))
  adapt-big buf size s h p ops v o b big =
      let settled = first_status-Orderly s ops o in
      let w = filling (buf ++ p) (size + length p) s in
      let (h', zipped, writer, answer) = start_gzip-run (buf ++ p) (size + length p) s h v in
      rw
        (
          adapt-step (filling buf size s) (start_gzip cfg w).0 (write p) (start_gzip cfg w).1 ops
              (waiting h) (intercept-big buf size s p big),
          writer,
          answer,
          settled,
          ← append_assoc buf p (written ops),
        )
        (Delivers-zipped (or_ok s) ((buf ++ p) ++ written ops) h' _ zipped (
          adapt-zipping [] (size + length p) (buf ++ p) (or_ok s) h' (or_ok s) h' ops o
            (rw settled at b)))

  set_status :
      (buf : List ℕ) (size s c : ℕ)
      → (if s == 0 then record (filling buf size s) { status = c } else filling buf size s)
        ≡ filling buf size (if s == 0 then c else s)
  set_status buf size s c = ground arith

  pub adapt-filling :
      (buf : List ℕ) (size s : ℕ) (h : Headers) (wrote : Bool) (ops : List Op)
      → valid_level cfg.level ≡ true
      → get "Content-Encoding" h ≡ ""
      → Orderly wrote ops
      → body_allowed (first_status s ops) ≡ true
      → Delivers
          (first_status s ops)
          (buf ++ written ops)
          (send_header 200 (run (adapt codec cfg (filling buf size s) ops) (waiting h)))
  unfolding adapt run
  adapt-filling buf size s h wrote [] v e o b = rw append-nil (finish-Delivers buf size s h e b)
  adapt-filling buf size s h wrote (set_header n value ∷ ops) v e o b =
      adapt-filling buf size s _ wrote ops v (get-set "Content-Encoding" n value h ∙ (rw o.0 e)) o.1
        b
  adapt-filling buf size s h wrote (add_header n value ∷ ops) v e o b =
      adapt-filling buf size s _ wrote ops v (get-add_other "Content-Encoding" n value h o.0 ∙ e)
        o.1 b
  adapt-filling buf size s h wrote (del_header n ∷ ops) v e o b =
      adapt-filling buf size s _ wrote ops v (get-del "Content-Encoding" n h ∙ (ground arith)) o b
  adapt-filling buf size s h wrote (write_header c ∷ ops) v e o b =
      rw (set_status buf size s c)
        (adapt-filling buf size (if s == 0 then c else s) h wrote ops v e o.2 b)
  adapt-filling buf size s h wrote (write p ∷ ops) v e o b =
      elim (Bool-cases (at_least (length (buf ++ p)) cfg.threshold)) [
        | inl big ↦ adapt-big buf size s h p ops v o b big
        | inr small ↦
            rw (small, ← append_assoc buf p (written ops))
              (adapt-filling (buf ++ p) (size + length p) s h true ops v e o b)
      ]
  adapt-filling buf size s h wrote (panic ∷ ops) v e o b = absurd o
