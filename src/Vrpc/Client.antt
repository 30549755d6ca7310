-- ===== src/Vrpc/Client.antt =====
-- vrpc/value_client_factory.go: the client, its address and its transport.
use Prim.Native.String
use servion.Base.{ℕ, String, List, [], ◌∷◌, ◌++◌, Option, none, some, ◌⊎◌, inl, inr, if◌then◌else◌}
use servion.Base.Int.{ℤ, pos, exceeds}
use servion.Text.{has_prefix, contains, drop_prefix}
use servion.Runner.{Error}
use servion.Factory.{Properties}
use servion.Grpc.Client.{property_of, connect_addr, address_not_found}
use servion.Vrpc.{Transport, plain_error, stream_network}

-- localizeAddr
unfoldable pub localize_addr : String → String
localize_addr bind_addr =
    if contains bind_addr "://"
    then bind_addr
    else if has_prefix bind_addr "0.0.0.0:"
    then String.◌++◌ "127.0.0.1" (drop_prefix bind_addr "0.0.0.0")
    else if has_prefix bind_addr ":"
    then String.◌++◌ "127.0.0.1" bind_addr
    else bind_addr

pub data ClientOption (I : Type 0) : Type 0 where
  with_interceptors : List I → ClientOption I
  -- valueclient.WithMetadata(valuerpc.MetadataFromContext)
  with_metadata : ClientOption I

-- valueclient, valuerpc and obfs: a client by a dialer, and one that dials by itself, through a
-- SOCKS5 proxy if one is named.
pub record ClientLibrary (S Conn Dialer Policy I Cli : Type 0) : Type 0 where
  pub parse_address : String → String × String
  -- DialContext of a net.Dialer, of the network and the address; obfs.Wrap.
  pub dial : String → String → S → S × (Error ⊎ Conn)
  pub wrap : Conn → Policy → Conn
  -- valuerpc.NewFuncDialer: how it dials, and the write timeout.
  pub func_dialer : (S → S × (Error ⊎ Conn)) → ℕ → Dialer
  pub new_client_with_dialer : Dialer → List (ClientOption I) → Cli
  pub new_client : String → String → List (ClientOption I) → Cli
  pub set_timeout : ℤ → Cli → Cli
  pub default_timeout : ℕ

-- implValueClientFactory. `resilience` are the interceptors of the policy, where there is one.
pub record ValueClientFactory (S Lis Dialer Policy I : Type 0) : Type 0 where
  pub bean_name : String
  pub properties : Properties
  pub obfs : Option Policy
  pub transport : Option (Transport S Lis Dialer)
  pub resilience : Option (List I)

module _ {S Conn Dialer Policy I Cli : Type 0}
    (library : ClientLibrary S Conn Dialer Policy I Cli) where
  -- What the dialer makes of the connection that was dialed.
  unfoldable pub wrapped_conn : Policy → S × (Error ⊎ Conn) → S × (Error ⊎ Conn)
  wrapped_conn policy (s, inl e) = (s, inl e)
  wrapped_conn policy (s, inr base) = (s, inr (library.wrap base policy))

  unfoldable pub obfs_dialer : String → Policy → ℕ → Error ⊎ Dialer
  unfolding stream_network wrapped_conn
  obfs_dialer address policy write_timeout = elim (stream_network (library.parse_address address)) [
    | inl e ↦ inl e
    | inr (network, addr) ↦
        inr (
          library.func_dialer (λ s. wrapped_conn policy (library.dial network addr s))
            write_timeout)
  ]

  unfoldable pub by_dialer : List (ClientOption I) → Error ⊎ Dialer → Error ⊎ Cli
  by_dialer opts (inl e) = inl e
  by_dialer opts (inr dialer) = inr (library.new_client_with_dialer dialer opts)

unfoldable pub governed : {I : Type 0} → Option (List I) → List (ClientOption I)
governed none = []
governed (some []) = []
governed (some (ic ∷ ics)) = with_interceptors (ic ∷ ics) ∷ []

module _ {S Conn Lis Dialer Policy I Cli : Type 0}
    (library : ClientLibrary S Conn Dialer Policy I Cli) where
  -- The switch of Object.
  unfoldable pub client_of :
      ValueClientFactory S Lis Dialer Policy I → String → S → S × (Error ⊎ Cli)
  unfolding obfs_dialer governed by_dialer
  client_of t addr s =
      let socks5 = property_of t.properties t.bean_name "socks5" in
      let opts = governed t.resilience ++ with_metadata ∷ [] in
      elim t.transport [
        | some transport ↦
            let (s', made) = transport.dialer addr library.default_timeout s in
            (s', by_dialer library opts made)
        | none ↦ elim t.obfs [
          | some policy ↦
              (s, by_dialer library opts (obfs_dialer library addr policy library.default_timeout))
          | none ↦ (s, inr (library.new_client addr socks5 opts))
        ]
      ]

  timed : ValueClientFactory S Lis Dialer Policy I → Cli → Cli
  timed t cli =
      let n = t.properties.get_int (String.◌++◌ t.bean_name ".timeout-ms") (pos 0) in
      if exceeds n 0 then library.set_timeout n cli else cli

  -- Object
  unfoldable pub object : ValueClientFactory S Lis Dialer Policy I → S → S × (Error ⊎ Cli)
  unfolding client_of timed connect_addr localize_addr
  object t s = elim (connect_addr localize_addr t.properties t.bean_name) [
    | none ↦ (s, inl (plain_error (address_not_found t.bean_name)))
    | some addr ↦
        let (s', made) = client_of t addr s in
        (s', elim made [ inl e ↦ inl e | inr cli ↦ inr (timed t cli) ])
  ]
