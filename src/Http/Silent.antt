-- ===== src/Http/Silent.antt =====
-- Handlers that leave a header alone: the value that stood there when they began is sent.
use servion.Base.{
  ℕ, String, Bool, false, List, [], ◌∷◌, Option, none, some, ◌≡◌, refl, All, arith, Option-cases,
  inl, inr,
}
use servion.Http.Fields.{Headers, same_key, get}
use servion.Http.Writer.{
  Response, Op, set_header, add_header, del_header, write_header, write, panic, run, run_op,
  send_header, sent_header,
}
use servion.Http.Laws.{get-set, get-del, get-add_other}

-- The call changes the header.
unfoldable pub touches : String → Op → Bool
touches name (set_header key value) = same_key key name
touches name (add_header key value) = same_key key name
touches name (del_header key) = same_key key name
touches name _ = false

abbrev pub IsSilent : String → List Op → Type 0
IsSilent name ops = All (λ op. touches name op ≡ false) ops

-- The value that the response carries, or will if nothing changes it.
shown : String → Response → String
shown name r = elim r.sent [ none ↦ get name r.header | some sent ↦ get name sent.1 ]

shown-run_op :
    (name : String) (op : Op) (h : Headers) (sent : Option (ℕ × Headers)) (b : List ℕ)
    → touches name op ≡ false
    → shown name (run_op op (record { header = h; sent = sent; body = b }))
      ≡ shown name (record { header = h; sent = sent; body = b })
unfolding shown touches run_op send_header
shown-run_op name (set_header key value) h none b e = rw (get-set name key value h, e)
shown-run_op name (set_header key value) h (some x) b e = refl
shown-run_op name (add_header key value) h none b e = get-add_other name key value h e
shown-run_op name (add_header key value) h (some x) b e = refl
shown-run_op name (del_header key) h none b e = rw (get-del name key h, e)
shown-run_op name (del_header key) h (some x) b e = refl
shown-run_op name (write_header status) h none b e = refl
shown-run_op name (write_header status) h (some x) b e = refl
shown-run_op name (write p) h none b e = ground arith
shown-run_op name (write p) h (some x) b e = ground arith
shown-run_op name panic h sent b e = refl

shown-run :
    (name : String) (ops : List Op) (r : Response)
    → IsSilent name ops
    → shown name (run ops r) ≡ shown name r
unfolding run
shown-run name [] r e = refl
shown-run name (op ∷ ops) r (e, es) =
    rw (shown-run name ops (run_op op r) es) (shown-run_op name op r.header r.sent r.body e)

sent_header-send_header :
    (name : String) (r : Response) → sent_header name (send_header 200 r) ≡ shown name r
unfolding send_header shown
sent_header-send_header name r = elim (Option-cases r.sent) [
  | inl e ↦ rw e refl
  | inr (x, e) ↦ rw e refl
]

pub sent_header_of_IsSilent :
    (name : String) (ops : List Op) (h : Headers) (b : List ℕ)
    → IsSilent name ops
    → sent_header name (send_header 200 (run ops (record { header = h; sent = none; body = b })))
      ≡ get name h
unfolding send_header shown
sent_header_of_IsSilent name ops h b e =
    rw (sent_header-send_header name (run ops (record { header = h; sent = none; body = b })))
      (shown-run name ops (record { header = h; sent = none; body = b }) e)
