-- ===== src/Vrpc/Addresses.antt =====
-- How the gRPC client and the value-rpc client of a program find its server.
use Prim.Native.String
use Prim.Native.String.{[], ◌∷◌}
use text.Mathlib.TextLemmas.{append_assoc, nil-append, cons-append}
use servion.Base.{
  ◌≤◌, String, Char, code, ◌&&◌, ◌==◌, Bool, false, ◌||◌, some, ◌⊎◌, inl, inr, ◌≡◌, refl, ap, sym,
  ◌∙◌, arith,
}
use servion.Text.{is_empty, len, has_prefix, contains, drop, drop_prefix, replace_all, replace_from}
use servion.Factory.{Properties}
use servion.Grpc.Client.{property_of, connect_addr, localize_addr as localize_grpc}
use servion.Vrpc.Client.{localize_addr as localize_vrpc}

-- The host that stands for every address of the machine.
abbrev pub Wildcard : String → Type 0
Wildcard host = (host ≡ "") ⊎ (host ≡ "0.0.0.0")

has_prefix-append :
    (s t p : String) → len p ≤ len s → has_prefix (String.◌++◌ s t) p ≡ has_prefix s p
unfolding has_prefix len
has_prefix-append s t [] h = refl
has_prefix-append [] t (c ∷ p) h = absurd (omega (arith, h))
has_prefix-append (d ∷ s) t (c ∷ p) h =
    rw (cons-append d s t)
      (ap (λ x. code d == code c && x) (has_prefix-append s t p (omega (arith, h))))

len_clien : (p : String) → 5 ≤ len (String.◌++◌ p "clien")
unfolding len
len_clien [] = omega arith
len_clien (c ∷ p) = rw (cons-append c p "clien") (omega (arith, len_clien p))

-- What starts before the last character is decided there.
has_prefix-client :
    (c : Char) (p : String)
    → has_prefix (c ∷ String.◌++◌ p "client") "client"
      ≡ has_prefix (c ∷ String.◌++◌ p "clien") "client"
unfolding len
has_prefix-client c p =
    ap (λ s. has_prefix s "client")
      (sym (rw (cons-append c (String.◌++◌ p "clien") "t", append_assoc p "clien" "t") refl))
    ∙ has_prefix-append (c ∷ String.◌++◌ p "clien") "t" "client" (omega (arith, len_clien p))

or_false : (a b : Bool) → (a || b) ≡ false → (a ≡ false) × (b ≡ false)
or_false a b h = ground (arith, h)

replace_client :
    (p : String)
    → contains (String.◌++◌ p "clien") "client" ≡ false
    → replace_all (String.◌++◌ p "client") "client" "server" ≡ String.◌++◌ p "server"
unfolding replace_all replace_from contains has_prefix
replace_client [] h = simp (nil-append)
replace_client (c ∷ p) h =
    let (here, later) =
      or_false (has_prefix (c ∷ String.◌++◌ p "clien") "client")
        (contains (String.◌++◌ p "clien") "client") (rw (cons-append c p "clien") at h) in
    rw (cons-append c p "client", cons-append c p "server", has_prefix-client c p, here)
      (ap (λ s. c ∷ s) (replace_client p later))

abbrev colon : Char
colon = ":"

cons_colon : (s : String) → String.◌++◌ ":" s ≡ colon ∷ s
cons_colon s = rw (cons-append colon "" s, nil-append s) refl

-- The host of all addresses, spelled out.
any_host : (s : String) → String.◌++◌ "0.0.0.0" s ≡ "0" ∷ "." ∷ "0" ∷ "." ∷ "0" ∷ "." ∷ "0" ∷ s
any_host s =
    rw
      (
        cons-append "0" ".0.0.0" s,
        cons-append "." "0.0.0" s,
        cons-append "0" ".0.0" s,
        cons-append "." "0.0" s,
        cons-append "0" ".0" s,
        cons-append "." "0" s,
        cons-append "0" "" s,
        nil-append s,
      )
      refl

loopback : (port : String) → String.◌++◌ "127.0.0.1" (colon ∷ port) ≡ String.◌++◌ "127.0.0.1:" port
loopback port =
    ap (String.◌++◌ "127.0.0.1") (sym (cons_colon port)) ∙ sym (append_assoc "127.0.0.1" ":" port)

localize-Wildcard :
    (host port : String)
    → Wildcard host
    → localize_grpc (String.◌++◌ host (String.◌++◌ ":" port)) ≡ String.◌++◌ "127.0.0.1:" port
unfolding localize_grpc has_prefix drop_prefix drop len
localize-Wildcard host port (inl e) =
    rw (e, nil-append (String.◌++◌ ":" port), cons_colon port) (loopback port)
localize-Wildcard host port (inr e) =
    rw (e, cons_colon port, any_host (colon ∷ port)) (loopback port)

bind_addr_not_empty :
    (host port : String)
    → Wildcard host
    → is_empty (String.◌++◌ host (String.◌++◌ ":" port)) ≡ false
bind_addr_not_empty host port (inl e) =
    rw (e, nil-append (String.◌++◌ ":" port), cons_colon port) refl
bind_addr_not_empty host port (inr e) = rw (e, any_host (String.◌++◌ ":" port)) refl

localize_vrpc_without_scheme :
    (addr : String) → contains addr "://" ≡ false → localize_vrpc addr ≡ localize_grpc addr
unfolding localize_vrpc localize_grpc
localize_vrpc_without_scheme addr n = rw (n, localize_vrpc) refl

connected_to :
    (properties : Properties) (name bind_addr : String)
    → contains (String.◌++◌ name "clien") "client" ≡ false
    → is_empty bind_addr ≡ false
    → property_of properties (String.◌++◌ name "client") "connect-address" ≡ ""
    → property_of properties (String.◌++◌ name "server") "bind-address" ≡ bind_addr
    → (localize : String → String)
    → connect_addr localize properties (String.◌++◌ name "client") ≡ some (localize bind_addr)
unfolding connect_addr
connected_to properties name bind_addr once n given bound localize =
    rw (connect_addr, given, replace_client name once, bound, n) refl

-- A gRPC or value-rpc client whose name ends in "client", a word that does not occur before, and
-- that has no connect-address, connects to the loopback address at the port of the server of the
-- same program, whose name ends in "server" and whose bind-address is that port on all addresses of
-- the machine, when the address has no scheme.
pub client_finds_server :
    (properties : Properties) (name host port : String)
    → Wildcard host
    → contains (String.◌++◌ name "clien") "client" ≡ false
    → let bind_addr = String.◌++◌ host (String.◌++◌ ":" port) in
      contains bind_addr "://" ≡ false
      → property_of properties (String.◌++◌ name "client") "connect-address" ≡ ""
      → property_of properties (String.◌++◌ name "server") "bind-address" ≡ bind_addr
      → (connect_addr localize_grpc properties (String.◌++◌ name "client")
          ≡ some (String.◌++◌ "127.0.0.1:" port))
        × (connect_addr localize_vrpc properties (String.◌++◌ name "client")
            ≡ some (String.◌++◌ "127.0.0.1:" port))
client_finds_server properties name host port w once no_scheme given bound =
    let bind_addr = String.◌++◌ host (String.◌++◌ ":" port) in
    let connected =
      connected_to properties name bind_addr once (bind_addr_not_empty host port w) given bound in
    (
      connected localize_grpc ∙ ap some (localize-Wildcard host port w),
      connected localize_vrpc
          ∙ ap some
              (localize_vrpc_without_scheme bind_addr no_scheme ∙ localize-Wildcard host port w),
    )
