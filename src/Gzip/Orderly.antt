-- ===== src/Gzip/Orderly.antt =====
-- Handlers that set a final status before they write, and what they send with no middleware.
use mathlib.Core.List.{append-nil, append_assoc}
use servion.Base.{
  ℕ, ◌≤◌, Bool, true, false, List, [], ◌∷◌, ◌++◌, Option, none, some, ◌≡◌, refl, sym, arith,
  if◌then◌else◌, str_eq, ◌==◌,
}
use servion.Http.{
  Op, set_header, add_header, del_header, write_header, write, panic, Response, Headers, same_key,
  run, status, sent_header, send_header, body_allowed,
}
use servion.Http.Laws.{run-write}
use servion.Gzip.{Codec, or_ok}

-- What the calls write, one after the other.
abbrev pub written : List Op → List ℕ
written [] = []
written (write p ∷ ops) = p ++ written ops
written (_ ∷ ops) = written ops

-- The status that the calls settle on: the first one set, or 200.
abbrev pub first_status : ℕ → List Op → ℕ
first_status s [] = or_ok s
first_status s (write_header c ∷ ops) = first_status (if s == 0 then c else s) ops
first_status s (_ ∷ ops) = first_status s ops

-- A handler that sets statuses of 200 or more only, none behind its first write, and does not
-- panic.
abbrev pub Ruled : Bool → List Op → Type 0
Ruled wrote [] = Unit
Ruled wrote (set_header n v ∷ ops) = Ruled wrote ops
Ruled wrote (add_header n v ∷ ops) = Ruled wrote ops
Ruled wrote (del_header n ∷ ops) = Ruled wrote ops
Ruled wrote (write_header c ∷ ops) = (wrote ≡ false) × (200 ≤ c) × Ruled wrote ops
Ruled wrote (write p ∷ ops) = Ruled true ops
Ruled wrote (panic ∷ ops) = ⊥

-- A handler that sets no Content-Encoding of its own, as net/http would allow it to.
abbrev pub Unencoded : List Op → Type 0
Unencoded [] = Unit
Unencoded (set_header n v ∷ ops) = (same_key n "Content-Encoding" ≡ false) × Unencoded ops
Unencoded (add_header n v ∷ ops) = (same_key n "Content-Encoding" ≡ false) × Unencoded ops
Unencoded (_ ∷ ops) = Unencoded ops

-- Both of it.
abbrev pub Orderly : Bool → List Op → Type 0
Orderly wrote [] = Unit
Orderly wrote (set_header n v ∷ ops) = (same_key n "Content-Encoding" ≡ false) × Orderly wrote ops
Orderly wrote (add_header n v ∷ ops) = (same_key n "Content-Encoding" ≡ false) × Orderly wrote ops
Orderly wrote (del_header n ∷ ops) = Orderly wrote ops
Orderly wrote (write_header c ∷ ops) = (wrote ≡ false) × (200 ≤ c) × Orderly wrote ops
Orderly wrote (write p ∷ ops) = Orderly true ops
Orderly wrote (panic ∷ ops) = ⊥

pub Ruled-Orderly :
    (wrote : Bool) (ops : List Op) → Ruled wrote ops → Unencoded ops → Orderly wrote ops
Ruled-Orderly wrote [] r u = tt
Ruled-Orderly wrote (set_header n v ∷ ops) r (e, u) = (e, Ruled-Orderly wrote ops r u)
Ruled-Orderly wrote (add_header n v ∷ ops) r (e, u) = (e, Ruled-Orderly wrote ops r u)
Ruled-Orderly wrote (del_header n ∷ ops) r u = Ruled-Orderly wrote ops r u
Ruled-Orderly wrote (write_header c ∷ ops) (w, h, r) u = (w, h, Ruled-Orderly wrote ops r u)
Ruled-Orderly wrote (write p ∷ ops) r u = Ruled-Orderly true ops r u
Ruled-Orderly wrote (panic ∷ ops) r u = absurd r

-- The body that the client reads, decompressed where the header says so.
abbrev pub decoded : Codec → Response → Option (List ℕ)
decoded codec r =
    if str_eq (sent_header "Content-Encoding" r) "gzip"
    then codec.open_reader r.body
    else some r.body

pub first_status-Orderly : (s : ℕ) (ops : List Op) → Orderly true ops → first_status s ops ≡ or_ok s
first_status-Orderly s [] o = refl
first_status-Orderly s (set_header n v ∷ ops) o = first_status-Orderly s ops o.1
first_status-Orderly s (add_header n v ∷ ops) o = first_status-Orderly s ops o.1
first_status-Orderly s (del_header n ∷ ops) o = first_status-Orderly s ops o
first_status-Orderly s (write_header c ∷ ops) o = cc (o.0)
first_status-Orderly s (write p ∷ ops) o = first_status-Orderly s ops o
first_status-Orderly s (panic ∷ ops) o = absurd o

first_status-set : (c : ℕ) (ops : List Op) → 200 ≤ c → first_status c ops ≡ c
first_status-set c [] h = ground arith
first_status-set c (set_header n v ∷ ops) h = first_status-set c ops h
first_status-set c (add_header n v ∷ ops) h = first_status-set c ops h
first_status-set c (del_header n ∷ ops) h = first_status-set c ops h
first_status-set c (write_header d ∷ ops) h =
    let kept : (if c == 0 then d else c) ≡ c = ground arith in rw kept (first_status-set c ops h)
first_status-set c (write p ∷ ops) h = first_status-set c ops h
first_status-set c (panic ∷ ops) h = first_status-set c ops h

-- Once the status line is out, writes add to the body.
run-sent :
    (ops : List Op) (h₀ : Headers) (st : ℕ) (h : Headers) (body : List ℕ) (wrote : Bool)
    → Orderly wrote ops
    → body_allowed st ≡ true
    → let r = run ops (record { header = h₀; sent = some (st, h); body = body }) in
      (r.sent ≡ some (st, h)) × (r.body ≡ body ++ written ops)
unfolding run
run-sent [] h₀ st h body wrote o b = (refl, sym (append-nil body))
run-sent (set_header n v ∷ ops) h₀ st h body wrote o b = run-sent ops _ st h body wrote o.1 b
run-sent (add_header n v ∷ ops) h₀ st h body wrote o b = run-sent ops _ st h body wrote o.1 b
run-sent (del_header n ∷ ops) h₀ st h body wrote o b = run-sent ops _ st h body wrote o b
run-sent (write_header c ∷ ops) h₀ st h body wrote o b = run-sent ops h₀ st h body wrote o.2 b
run-sent (write p ∷ ops) h₀ st h body wrote o b =
    rw (run-write h₀ st h body p ops b, ← append_assoc body p (written ops))
      (run-sent ops h₀ st h (body ++ p) true o b)
run-sent (panic ∷ ops) h₀ st h body wrote o b = absurd o

complete-sent :
    (st : ℕ) (h : Headers) (p : List ℕ) (r : Response)
    → (r.sent ≡ some (st, h)) × (r.body ≡ p)
    → (status (send_header 200 r) ≡ some st) × ((send_header 200 r).body ≡ p)
unfolding send_header
complete-sent st h p r (s, b) =
    let same : send_header 200 r ≡ r = simp (s, send_header) in rw same (rw s, b)

-- With no middleware the client gets the first status and all that is written.
pub run-Orderly :
    (ops : List Op) (h : Headers)
    → Orderly false ops
    → body_allowed (first_status 0 ops) ≡ true
    → let r = send_header 200 (run ops (record { header = h; sent = none; body = [] })) in
      (status r ≡ some (first_status 0 ops)) × (r.body ≡ written ops)
unfolding run send_header
run-Orderly [] h o b = (refl, refl)
run-Orderly (set_header n v ∷ ops) h o b = run-Orderly ops _ o.1 b
run-Orderly (add_header n v ∷ ops) h o b = run-Orderly ops _ o.1 b
run-Orderly (del_header n ∷ ops) h o b = run-Orderly ops _ o b
run-Orderly (write_header c ∷ ops) h o b =
    let settled = first_status-set c ops o.1 in
    rw settled
      (complete-sent c h (written ops) _ (run-sent ops h c h [] false o.2 (rw settled at b)))
run-Orderly (write p ∷ ops) h o b =
    let settled = first_status-Orderly 0 ops o in
    rw settled
      (complete-sent 200 h (p ++ written ops) _ (run-sent ops h 200 h p true o (rw settled at b)))
run-Orderly (panic ∷ ops) h o b = absurd o
