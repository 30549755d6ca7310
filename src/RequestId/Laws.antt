-- ===== src/RequestId/Laws.antt =====
-- One identifier, in the request, the response and the context.
use servion.Base.{ℕ, String, List, [], ◌∷◌, some, ◌≡◌, refl, Bool-cases, inl, inr, if◌then◌else◌}
use servion.Text.{is_empty}
use servion.Http.{
  Request, Handler, Op, set_header, get, set, same_key, sent_header, complete, run, send_header,
  fresh,
}
use servion.Http.Laws.{get-set}
use servion.Http.Silent.{IsSilent, sent_header_of_IsSilent}
use servion.RequestId.{encode_hex, request_id_of, generate_request_id, middleware}

sent_header_of_id :
    (id : String) (ops : List Op)
    → IsSilent "X-Request-ID" ops
    → sent_header "X-Request-ID" (send_header 200 (run (set_header "X-Request-ID" id ∷ ops) fresh))
      ≡ id
unfolding run same_key
sent_header_of_id id ops q =
    rw (sent_header_of_IsSilent "X-Request-ID" ops (set "X-Request-ID" id []) [] q)
      (get-set "X-Request-ID" "X-Request-ID" id [])

module _ {S : Type 0} (random : S → S × List ℕ) where
  middleware_of_id :
      (next : Handler S) (r : Request) (s : S)
      → let given = get "X-Request-ID" r.header in
        let id = if is_empty given then encode_hex (random s).1 else given in
        let s' = if is_empty given then (random s).0 else s in
        let inner = next (record r { request_id = some id }) s' in
        middleware random next r s ≡ (inner.0, set_header "X-Request-ID" id ∷ inner.1)
  unfolding middleware request_id_of generate_request_id
  middleware_of_id next r s = elim (Bool-cases (is_empty (get "X-Request-ID" r.header))) [
    | inl e ↦ rw e refl
    | inr e ↦ rw e refl
  ]

  -- The handler sees an identifier in its context, which is the client's X-Request-ID when that is
  -- not empty, and otherwise the 16 random bytes in hex; a handler that does not touch the header
  -- answers with the same identifier in X-Request-ID.
  pub middleware_identifies :
      (next : Handler S) (r : Request) (s : S)
      → let given = get "X-Request-ID" r.header in
        let id = if is_empty given then encode_hex (random s).1 else given in
        let s' = if is_empty given then (random s).0 else s in
        let inner = next (record r { request_id = some id }) s' in
        IsSilent "X-Request-ID" inner.1
        → ((middleware random next r s).0 ≡ inner.0)
          × (sent_header "X-Request-ID" (complete (middleware random next) r s) ≡ id)
  middleware_identifies next r s q = rw (middleware_of_id next r s) (refl, sent_header_of_id _ _ q)
