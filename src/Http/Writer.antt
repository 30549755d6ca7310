-- ===== src/Http/Writer.antt =====
-- Requests, the calls on an http.ResponseWriter and what net/http makes of them.
use servion.Base.{
  ℕ, String, Bool, not, ◌||◌, List, [], ◌∷◌, ◌++◌, Option, none, some, ◌==◌, leb, str_eq,
  if◌then◌else◌,
}
use servion.Text.{bytes}
use servion.Http.Fields.{Headers, get, set, add, del}

-- api.go, AuthInfo
pub record AuthInfo : Type 0 where
  pub hashed_token : String
  pub subject : String
  pub scopes : List String
  pub roles : List String
  pub issuer : String
  pub attributes : List (String × String)

-- A request, with the two values that the program keeps in its context.
pub record Request : Type 0 where
  pub method : String
  pub path : String
  pub header : Headers
  pub body : List ℕ
  pub remote_addr : String
  pub auth : Option AuthInfo
  pub request_id : Option String

pub data Op : Type 0 where
  set_header : String → String → Op
  add_header : String → String → Op
  del_header : String → Op
  write_header : ℕ → Op
  write : List ℕ → Op
  -- The handler panics: nothing follows it, and the server drops the connection.
  panic : Op

-- `sent` holds the status and the headers as they were when the status line went out, and `body`
-- what net/http took of what was written. A status below 200 is taken as final: the program sends
-- none.
pub record Response : Type 0 where
  pub header : Headers
  pub sent : Option (ℕ × Headers)
  pub body : List ℕ

abbrev pub fresh : Response
fresh = record { header = []; sent = none; body = [] }

-- The statuses that take a body.
unfoldable pub body_allowed : ℕ → Bool
body_allowed status = not (leb status 199 || status == 204 || status == 304)

-- The first call sends the status line; a later one is superfluous and changes nothing.
unfoldable pub send_header : ℕ → Response → Response
send_header status r = elim r.sent [
  | none ↦ record r { sent = some (status, r.header) }
  | some _ ↦ r
]

append_body : List ℕ → Response → Response
append_body p r = elim r.sent [
  | none ↦ r
  | some (status, h) ↦ if body_allowed status then record r { body = r.body ++ p } else r
]

unfoldable pub run_op : Op → Response → Response
unfolding send_header append_body body_allowed set add del
run_op (set_header name value) r = record r { header = set name value r.header }
run_op (add_header name value) r = record r { header = add name value r.header }
run_op (del_header name) r = record r { header = del name r.header }
run_op (write_header status) r = send_header status r
run_op (write p) r = append_body p (send_header 200 r)
run_op panic r = r

unfoldable pub run : List Op → Response → Response
unfolding run_op
run [] r = r
run (op ∷ ops) r = run ops (run_op op r)

-- http.Error
unfoldable pub error : String → ℕ → List Op
unfolding bytes
error message status =
    del_header "Content-Length"
    ∷ set_header "Content-Type" "text/plain; charset=utf-8"
    ∷ set_header "X-Content-Type-Options" "nosniff"
    ∷ write_header status
    ∷ write (bytes message ++ 10 ∷ [])
    ∷ []

-- http.Handler, over the state of the program: the new state, and the calls on the writer.
abbrev pub Handler : Type 0 → Type 0
Handler S = Request → S → S × List Op

-- What net/http makes of the calls.
abbrev pub respond : {S : Type 0} → Handler S → Request → S → Response
respond h r s = run (h r s).1 fresh

-- The status that went out.
abbrev pub status : Response → Option ℕ
status r = elim r.sent [ none ↦ none | some sent ↦ some sent.0 ]

-- A header of the response as it went out.
abbrev pub sent_header : String → Response → String
sent_header name r = elim r.sent [ none ↦ "" | some sent ↦ get name sent.1 ]

-- The body that reaches the client: nothing of it when it asked by HEAD.
unfoldable pub received_body : Request → Response → List ℕ
received_body r answer = if str_eq r.method "HEAD" then [] else answer.body

-- When the handler returns, the server sends the status line if nothing has.
abbrev pub complete : {S : Type 0} → Handler S → Request → S → Response
complete h r s = send_header 200 (respond h r s)
