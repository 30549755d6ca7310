-- ===== src/Vrpc/Shaped.antt =====
-- What the obfuscation of a server and of a client is applied to.
use servion.Base.{
  ℕ, String, true, List, [], ◌∷◌, ◌++◌, Option, none, some, ◌≡◌, refl, ap, sym, ◌∙◌, ◌⊎◌, inl, inr,
  Bool-cases,
}
use Prim.Native.String
use servion.Text.{is_empty}
use servion.Jwt.Keys.{none-some}
use servion.Runner.{Error}
use servion.Runner.Closing.{Sum-cases}
use servion.Vrpc.{
  Library, ValueServer, is_stream, stream_network, obfs_listener, listener_of, duration, bind,
  not_streamed,
}
use servion.Vrpc.Client.{
  ClientOption, with_metadata, ClientLibrary, ValueClientFactory, obfs_dialer, wrapped_conn,
  by_dialer, governed, client_of,
}

or_right : {A B : Type 0} → B → A ⊎ B → B
or_right d (inl a) = d
or_right d (inr b) = b

inl-inr : {A B : Type 0} {a : A} {b : B} → inl a ≡ inr b → ⊥
inl-inr e = cc

or_else : {A : Type 0} → A → Option A → A
or_else d none = d
or_else d (some a) = a

some-injective : {A : Type 0} {a b : A} → some a ≡ some b → a ≡ b
unfolding or_else
some-injective {a = a} e = ap (or_else a) e

pair_of : {A B : Type 0} (p : A × B) {a : A} {b : B} → p.0 ≡ a → p.1 ≡ b → p ≡ (a, b)
pair_of (x, y) e f = cc

stream_network-cases :
    (parsed : String × String)
    → ((e : Error) × (stream_network parsed ≡ inl e))
      ⊎ ((is_stream parsed.0 ≡ true) × (stream_network parsed ≡ inr parsed))
unfolding stream_network
stream_network-cases (network, addr) = elim (Bool-cases (is_stream network)) [
  | inl y ↦ inr (y, rw y refl)
  | inr n ↦ inl (not_streamed network, rw n refl)
]

module _ {S Base Conn Lis Dialer Srv Policy I Cli : Type 0}
    (library : Library S Base Conn Lis Srv Policy)
    (client_library : ClientLibrary S Conn Dialer Policy I Cli) where
  -- Every connection that comes out of `made` is obfs.Wrap, by the policy, of one that comes out of
  -- `plain` in the same state.
  abbrev pub WrapsAll : Policy → (S → S × (Error ⊎ Conn)) → (S → S × (Error ⊎ Conn)) → Type 0
  WrapsAll policy plain made =
      (s s' : S) (conn : Conn)
      → made s ≡ (s', inr conn)
      → (base : Conn) × (plain s ≡ (s', inr base)) × (conn ≡ client_library.wrap base policy)

  -- obfs.Listener accepts what the listener below it accepts, each connection wrapped by the
  -- policy.
  abbrev pub Shapes : Type 0
  Shapes =
      (base : Base) (policy : Policy) (s : S)
      → library.accept_from (library.shape base policy) s
        ≡ wrapped_conn client_library policy (library.accept_from base s)

  -- The listener is over a socket of a stream network, and all that it accepts is wrapped.
  abbrev pub ShapedListener : Policy → String → S → S → Lis → Type 0
  ShapedListener policy addr s s' lis =
      let (network, host) = library.parse_address addr in
      (is_stream network ≡ true)
      × ((base : Base) × (timeout : ℕ) × (accept : S → S × (Error ⊎ Conn)) × (library.net_listen
              network host s
            ≡ (s', inr base))
          × (lis
              ≡ library.accept_listener accept (library.addr_of base) (library.close_base base)
                  timeout)
          × WrapsAll policy (library.accept_from base) accept)

  -- The client dials over a stream network, and all that it dials is wrapped.
  abbrev pub ShapedClient : Policy → String → Cli → Type 0
  ShapedClient policy addr cli =
      let (network, host) = client_library.parse_address addr in
      (is_stream network ≡ true)
      × ((opts : List (ClientOption I)) × (dial : S → S × (Error ⊎ Conn)) × (cli
            ≡ client_library.new_client_with_dialer
                (client_library.func_dialer dial client_library.default_timeout) opts)
          × WrapsAll policy (client_library.dial network host) dial)

  wrapped_conn_wraps :
      (policy : Policy) (dialed : S × (Error ⊎ Conn)) (s' : S) (conn : Conn)
      → wrapped_conn client_library policy dialed ≡ (s', inr conn)
      → (base : Conn) × (dialed ≡ (s', inr base)) × (conn ≡ client_library.wrap base policy)
  unfolding wrapped_conn or_right
  wrapped_conn_wraps policy (s, inl e) s' conn q = absurd (inl-inr (ap (λ r. r.1) q))
  wrapped_conn_wraps policy (s, inr base) s' conn q =
      (base, ap (λ r. (r.0, inr base)) q, sym (ap (λ r. or_right conn r.1) q))

  obfs_listener-Shaped :
      (addr : String) (policy : Policy) (timeout : ℕ) (s s' : S) (lis : Lis)
      → Shapes
      → obfs_listener library addr policy timeout s ≡ (s', inr lis)
      → ShapedListener policy addr s s' lis
  unfolding obfs_listener or_right
  obfs_listener-Shaped addr policy timeout s s' lis shapes e =
      elim (stream_network-cases (library.parse_address addr)) [
        | inl (x, c) ↦ absurd (inl-inr (ap (λ r. r.1) (rw (c, obfs_listener) at e)))
        | inr (y, c) ↦
            let (network, host) = library.parse_address addr in
            elim (Sum-cases (library.net_listen network host s).1) [
              | inl (x, m) ↦ absurd (inl-inr (ap (λ r. r.1) (rw (c, m, obfs_listener) at e)))
              | inr (base, m) ↦
                  let made = rw (c, m, obfs_listener) at e in
                  (
                    y,
                    (
                      base,
                      timeout,
                      library.accept_from (library.shape base policy),
                      pair_of (library.net_listen network host s) (ap (λ r. r.0) made) m,
                      sym (ap (λ r. or_right lis r.1) made),
                      λ s₁ s₂ conn q.
                          wrapped_conn_wraps policy (library.accept_from base s₁) s₂ conn
                            (sym (shapes base policy s₁) ∙ q),
                    ),
                  )
            ]
      ]

  listener_of_obfs :
      (t : ValueServer S Lis Dialer Srv Policy) (policy : Policy) (addr : String) (s s' : S)
      (lis : Lis)
      → t.transport ≡ none
      → t.obfs ≡ some policy
      → Shapes
      → listener_of library t addr s ≡ (s', inr lis)
      → ShapedListener policy addr s s' lis
  unfolding listener_of
  listener_of_obfs t policy addr s s' lis n o shapes e =
      obfs_listener-Shaped addr policy (duration library t "write-timeout" library.default_timeout)
        s s' lis shapes (rw (n, o) at e)

  client_of_obfs :
      (t : ValueClientFactory S Lis Dialer Policy I) (policy : Policy) (addr : String) (s s' : S)
      (cli : Cli)
      → t.transport ≡ none
      → t.obfs ≡ some policy
      → client_of client_library t addr s ≡ (s', inr cli)
      → ShapedClient policy addr cli
  unfolding client_of obfs_dialer by_dialer or_right
  client_of_obfs t policy addr s s' cli n o e =
      elim (stream_network-cases (client_library.parse_address addr)) [
        | inl (x, c) ↦ absurd (inl-inr (ap (λ r. r.1) (rw (n, o, c, obfs_dialer) at e)))
        | inr (y, c) ↦ (
          y,
          (
            governed t.resilience ++ with_metadata ∷ [],
            λ s₁. wrapped_conn client_library policy (
                client_library.dial (client_library.parse_address addr).0
                  (client_library.parse_address addr).1 s₁),
            sym (ap (λ r. or_right cli r.1) (rw (n, o, c, obfs_dialer) at e)),
            λ s₁ s₂ conn q. wrapped_conn_wraps policy _ s₂ conn q,
          ),
        )
      ]

  -- Where a server is bound, its value-rpc server was made over a listener that the switch made.
  bind_srv :
      (t : ValueServer S Lis Dialer Srv Policy) (s : S) (srv : Srv)
      → t.srv ≡ none
      → (bind library t s).1.srv ≡ some srv
      → let addr = t.properties.get_string (String.◌++◌ t.bean_name ".bind-address") "" in
        (s1 : S) × (s2 : S) × (lis : Lis) × (listener_of library t addr s ≡ (s1, inr lis))
        × (library.new_server lis s1 ≡ (s2, inr srv))
  unfolding bind
  bind_srv t s srv n e =
      let addr = t.properties.get_string (String.◌++◌ t.bean_name ".bind-address") "" in
      elim (Bool-cases (is_empty addr)) [
        | inl y ↦ absurd (none-some (sym n ∙ (rw (y, bind) at e)))
        | inr y ↦ elim (Sum-cases (listener_of library t addr s).1) [
          | inl (x, m) ↦ absurd (none-some (sym n ∙ (rw (y, m, bind) at e)))
          | inr (lis, m) ↦
              elim (Sum-cases (library.new_server lis (listener_of library t addr s).0).1) [
                | inl (x, c) ↦ absurd (none-some (sym n ∙ (rw (y, m, c, bind) at e)))
                | inr (made, c) ↦ (
                  (listener_of library t addr s).0,
                  (library.new_server lis (listener_of library t addr s).0).0,
                  lis,
                  pair_of (listener_of library t addr s) refl m,
                  pair_of (library.new_server lis (listener_of library t addr s).0) refl
                      (c ∙ ap inr (some-injective (rw (y, m, c, bind) at e))),
                )
              ]
        ]
      ]

  -- Where an obfuscation profile and no transport is configured, and obfs.Listener wraps what it
  -- accepts: a server that Bind bound has a listener over a socket of a stream network of which
  -- every accepted connection is obfs.Wrap, by the policy, of one that the socket accepted; and a
  -- client that the factory made dials over a stream network, every connection of it obfs.Wrap, by
  -- the policy, of the one that was dialed.
  pub obfuscation_enforced :
      (t : ValueServer S Lis Dialer Srv Policy) (c : ValueClientFactory S Lis Dialer Policy I)
      (policy : Policy) (s : S)
      → (t.transport ≡ none) × (c.transport ≡ none)
      → (t.obfs ≡ some policy) × (c.obfs ≡ some policy)
      → t.srv ≡ none
      → Shapes
      → let addr = t.properties.get_string (String.◌++◌ t.bean_name ".bind-address") "" in
        ((srv : Srv)
          → (bind library t s).1.srv ≡ some srv
          → (s1 : S) × (s2 : S) × (lis : Lis) × ShapedListener policy addr s s1 lis
            × (library.new_server lis s1 ≡ (s2, inr srv)))
        × ((target : String) (s' : S) (cli : Cli)
            → client_of client_library c target s ≡ (s', inr cli)
            → ShapedClient policy target cli)
  obfuscation_enforced t c policy s (n, n') (o, o') u shapes = (
    λ srv e.
        let (s1, s2, lis, l, made) = bind_srv t s srv u e in
        (s1, s2, lis, listener_of_obfs t policy _ s s1 lis n o shapes l, made),
    λ target s' cli e. client_of_obfs c policy target s s' cli n' o' e,
  )
