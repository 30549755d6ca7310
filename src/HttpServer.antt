-- ===== src/HttpServer.antt =====
-- http_server.go: the life cycle of an HTTP server. The network is a record of what the code asks
-- of it; Serve is two steps, before and behind the blocking call of http.Server.Serve.
use Prim.Native.String
use servion.Base.{
  ℕ, suc, String, Bool, true, false, Option, none, some, ◌⊎◌, inl, inr, if◌then◌else◌,
}
use servion.Text.{contains}
use servion.Runner.{Error}

pub data Listener : Type 0 where
  socket : ℕ → Listener
  -- tls.NewListener
  over_tls : Listener → Listener

-- net.Listen, the listener provider of the server's context if there is one, http.Server.Close and
-- Close of a listener.
pub record Network (S : Type 0) : Type 0 where
  pub listen : String → S → S × (Error ⊎ Listener)
  pub provider : Option (String → S → S × (Error ⊎ Option Listener))
  pub close_server : S → S × Option Error
  pub close_listener : Listener → S → S

-- implHttpServer. `closes` is how often shutdownCh was closed: a second time panics.
pub record HttpServer : Type 0 where
  pub addr : String
  pub tls : Bool
  pub listener : Option Listener
  pub alive : Bool
  pub shut_down : Bool
  pub closes : ℕ

-- NewHttpServer
abbrev pub new_http_server : String → Bool → HttpServer
new_http_server addr tls = record {
  addr = addr;
  tls = tls;
  listener = none;
  alive = false;
  shut_down = false;
  closes = 0;
}

quoted : String → String → String → String
quoted before addr cause = String.◌++◌ before (String.◌++◌ addr (String.◌++◌ "': " cause))

-- xerrors.Errorf with %w: the text grows, the cause stays.
unfoldable pub wrapped : String → String → Error → Error
unfolding quoted
wrapped before addr e = record {
  message = quoted before addr e.message;
  addr_in_use = e.addr_in_use;
}

module _ {S : Type 0} (net : Network S) where
  -- The last part of Bind: an error leaves no listener.
  unfoldable pub listen_normally : HttpServer → S → S × HttpServer × Option Error
  unfolding wrapped
  listen_normally t s =
      let (s', made) = net.listen t.addr s in
      elim made [
        | inl e ↦
            (s', record t { listener = none }, some (wrapped "can not bind to port '" t.addr e))
        | inr ln ↦ (s', record t { listener = some ln }, none)
      ]

  -- Bind
  unfoldable pub bind : HttpServer → S → S × HttpServer × Option Error
  unfolding listen_normally wrapped
  bind t s = elim net.provider [
    | none ↦ listen_normally t s
    | some provide ↦
        let (s', made) = provide t.addr s in
        elim made [
          | inl e ↦ (s', t, some (wrapped "listener provider for '" t.addr e))
          | inr given ↦ elim given [
            | none ↦ listen_normally t s'
            | some ln ↦ (s', record t { listener = some ln }, none)
          ]
        ]
  ]

  close_bound : Option Listener → S → S
  close_bound none s = s
  close_bound (some ln) s = net.close_listener ln s

  -- Shutdown
  unfoldable pub shutdown : HttpServer → S → S × HttpServer × Option Error
  unfolding close_bound
  shutdown t s =
      let (s', failed) = net.close_server s in
      if t.shut_down
      then (s, t, none)
      else (close_bound t.listener s', record t { shut_down = true; closes = suc t.closes }, failed)

-- Serve is called on a server that is bound, so that the case of no listener does not arise.
unfoldable pub over : Bool → Option Listener → Option Listener
over tls none = none
over false (some ln) = some ln
over true (some ln) = some (over_tls ln)

-- Serve, up to the blocking call.
unfoldable pub begin_serve : HttpServer → HttpServer
unfolding over
begin_serve t = record t { listener = over t.tls t.listener; alive = true }

-- How the blocking call of Serve comes back: it returns an error or none, or it panics, and the
-- deferred PanicToError makes the error of it that Serve returns.
pub data Blocking (E : Type 0) : Type 0 where
  returned : Option E → Blocking E
  panicked : E → Blocking E

-- Serve, behind it: a closed socket is no error. A panic skips what follows the call.
unfoldable pub end_serve : Blocking String → HttpServer → HttpServer × Option String
end_serve (returned none) t = (record t { alive = false }, none)
end_serve (returned (some message)) t =
    (record t { alive = false }, if contains message "closed" then none else some message)
end_serve (panicked message) t = (t, some message)
