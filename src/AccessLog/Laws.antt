-- ===== src/AccessLog/Laws.antt =====
-- What the log says of an answer, and what the client saw.
use servion.Base.{
  ℕ, ◌+◌, true, false, List, [], ◌∷◌, ◌++◌, none, some, ◌≡◌, refl, sym, length, length-append,
  arith, inl, inr, str_eq, if◌then◌else◌, Bool-cases,
}
use servion.Http.{
  Request, Handler, Op, Cell, Clock, set_header, add_header, del_header, write_header, write, panic,
  run, Headers, send_header, status, complete, body_allowed, received_body, Response,
}
use servion.Http.Laws.{run-write}
use servion.AccessLog.{Entry, new_status_writer, record_ops, panics, entry, middleware}

-- The calls behind the status line: headers and writes, no further WriteHeader and no panic.
unfoldable pub OnlyWrites : List Op → Type 0
OnlyWrites [] = Unit
OnlyWrites (write_header _ ∷ ops) = ⊥
OnlyWrites (panic ∷ ops) = ⊥
OnlyWrites (_ ∷ ops) = OnlyWrites ops

-- A handler that sends one status at most, before its writes.
unfoldable pub Tidy : List Op → Type 0
unfolding OnlyWrites
Tidy [] = Unit
Tidy (write_header c ∷ ops) = (body_allowed c ≡ true) × OnlyWrites ops
Tidy (write b ∷ ops) = OnlyWrites ops
Tidy (panic ∷ ops) = ⊥
Tidy (_ ∷ ops) = Tidy ops

-- Behind the status line, the writer counts what the client gets.
record_ops_sent :
    (ops : List Op) (h₀ h : Headers) (st : ℕ) (body : List ℕ) (n : ℕ)
    → OnlyWrites ops
    → body_allowed st ≡ true
    → n ≡ length body
    → let r = run ops (record { header = h₀; sent = some (st, h); body = body }) in
      let w = record_ops (record { status = st; written = n }) ops in
      (status (send_header 200 r) ≡ some w.status) × (w.written ≡ length (send_header 200 r).body)
unfolding OnlyWrites run record_ops send_header
record_ops_sent [] h₀ h st body n o b e = (refl, e)
record_ops_sent (set_header k v ∷ ops) h₀ h st body n o b e =
    record_ops_sent ops _ h st body n o b e
record_ops_sent (add_header k v ∷ ops) h₀ h st body n o b e =
    record_ops_sent ops _ h st body n o b e
record_ops_sent (del_header k ∷ ops) h₀ h st body n o b e = record_ops_sent ops _ h st body n o b e
record_ops_sent (write_header c ∷ ops) h₀ h st body n o b e = absurd o
record_ops_sent (write p ∷ ops) h₀ h st body n o b e =
    rw (run-write h₀ st h body p ops b) (
      record_ops_sent ops h₀ h st (body ++ p) (n + length p) o b
        (rw (e, length-append body p) refl))
record_ops_sent (panic ∷ ops) h₀ h st body n o b e = absurd o

pub record_ops-Tidy :
    (ops : List Op) (h₀ : Headers)
    → Tidy ops
    → let r = run ops (record { header = h₀; sent = none; body = [] }) in
      let w = record_ops new_status_writer ops in
      (status (send_header 200 r) ≡ some w.status) × (w.written ≡ length (send_header 200 r).body)
unfolding Tidy run record_ops send_header
record_ops-Tidy [] h₀ o = (refl, refl)
record_ops-Tidy (set_header k v ∷ ops) h₀ o = record_ops-Tidy ops _ o
record_ops-Tidy (add_header k v ∷ ops) h₀ o = record_ops-Tidy ops _ o
record_ops-Tidy (del_header k ∷ ops) h₀ o = record_ops-Tidy ops _ o
record_ops-Tidy (write_header c ∷ ops) h₀ (b, o) = record_ops_sent ops h₀ h₀ c [] 0 o b refl
record_ops-Tidy (write p ∷ ops) h₀ o =
    record_ops_sent ops h₀ h₀ 200 p (0 + length p) o refl (omega arith)
record_ops-Tidy (panic ∷ ops) h₀ o = absurd o

panics-OnlyWrites : (ops : List Op) → OnlyWrites ops → panics ops ≡ false
unfolding OnlyWrites panics
panics-OnlyWrites [] o = refl
panics-OnlyWrites (set_header k v ∷ ops) o = panics-OnlyWrites ops o
panics-OnlyWrites (add_header k v ∷ ops) o = panics-OnlyWrites ops o
panics-OnlyWrites (del_header k ∷ ops) o = panics-OnlyWrites ops o
panics-OnlyWrites (write_header c ∷ ops) o = absurd o
panics-OnlyWrites (write p ∷ ops) o = panics-OnlyWrites ops o
panics-OnlyWrites (panic ∷ ops) o = absurd o

pub panics-Tidy : (ops : List Op) → Tidy ops → panics ops ≡ false
unfolding Tidy panics
panics-Tidy [] o = refl
panics-Tidy (set_header k v ∷ ops) o = panics-Tidy ops o
panics-Tidy (add_header k v ∷ ops) o = panics-Tidy ops o
panics-Tidy (del_header k ∷ ops) o = panics-Tidy ops o
panics-Tidy (write_header c ∷ ops) o = panics-OnlyWrites ops o.1
panics-Tidy (write p ∷ ops) o = panics-OnlyWrites ops o
panics-Tidy (panic ∷ ops) o = absurd o

-- A client that asks by HEAD receives nothing of the body.
pub length-received :
    {n : ℕ} (r : Request) (answer : Response)
    → n ≡ length answer.body
    → length (received_body r answer) ≡ (if str_eq r.method "HEAD" then 0 else n)
unfolding received_body
length-received r answer e = elim (Bool-cases (str_eq r.method "HEAD")) [
  | inl y ↦ rw y refl
  | inr n ↦ rw n (sym e)
]

-- For a handler that does not panic and sets at most one status, before its writes, and one that
-- takes a body: the middleware changes nothing of the response; it adds one entry behind the
-- others; the entry's status is the one that the client receives; and the entry's size is that of
-- the body that the handler wrote, all of which the client receives if it did not ask by HEAD, and
-- none if it did.
pub entry_matches_response :
    {S : Type 0} (log : Cell S (List Entry)) (clock : Clock S) (next : Handler S) (r : Request)
    (s : S)
    → let started = (clock.now s).0 in
      let answer = next r started in
      Tidy answer.1
      → (complete (middleware log clock next) r s ≡ complete next r started)
        × ((e : Entry) × (log.read (middleware log clock next r s).0
              ≡ log.read (clock.now answer.0).0 ++ e ∷ [])
            × (status (complete (middleware log clock next) r s) ≡ some e.status)
            × (e.bytes ≡ length (complete (middleware log clock next) r s).body)
            × (length (received_body r (complete (middleware log clock next) r s))
                ≡ (if str_eq r.method "HEAD" then 0 else e.bytes)))
unfolding middleware entry received_body
entry_matches_response log clock next r s t =
    let ops = (next r (clock.now s).0).1 in
    let (st, len) = record_ops-Tidy ops [] t in
    rw (panics-Tidy ops t) (
      refl,
      (_, log.read_write _ _, st, len, length-received r (complete next r (clock.now s).0) len),
    )
