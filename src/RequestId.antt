-- ===== src/RequestId.antt =====
-- requestid_middleware.go: the identifier of a request, taken from the client or made up. The
-- argument `random` is crypto/rand.Read of 16 bytes.
pub mod Laws
mod Examples
use Prim.Native.String.{[], ◌∷◌}
use servion.Base.{
  ℕ, ◌/◌, ◌%◌, String, Char, Bool, List, [], ◌∷◌, any, if◌then◌else◌, Option, some, none,
}
use servion.Base.Int.{ℤ}
use servion.Text.{is_empty, has_prefix, digit}
use servion.Http.{Request, Handler, Op, Middleware, set_header, get}

-- encoding/hex
hex_digit : ℕ → Char
unfolding digit
hex_digit d = digit d

unfoldable pub encode_hex : List ℕ → String
unfolding hex_digit
encode_hex [] = []
encode_hex (b ∷ bs) = hex_digit (b / 16) ∷ hex_digit (b % 16) ∷ encode_hex bs

-- The configured fields of implRequestIDMiddleware.
pub record Config : Type 0 where
  pub prefixes : List String

-- Match
unfoldable pub applies : Config → String → Bool
applies cfg prefix = any (λ p. has_prefix prefix p) cfg.prefixes

module _ {S : Type 0} (random : S → S × List ℕ) where
  -- generateRequestID
  unfoldable pub generate_request_id : S → S × String
  unfolding encode_hex
  generate_request_id s = let (s', b) = random s in (s', encode_hex b)

  -- The identifier of a request.
  unfoldable pub request_id_of : Request → S → S × String
  unfolding generate_request_id
  request_id_of r s =
      let id = get "X-Request-ID" r.header in
      let made = generate_request_id s in if is_empty id then made else (s, id)

  unfoldable pub middleware : Handler S → Handler S
  unfolding request_id_of
  middleware next r s =
      let (s₁, id) = request_id_of r s in
      let (s₂, ops) = next (record r { request_id = some id }) s₁ in
      (s₂, set_header "X-Request-ID" id ∷ ops)

  unfoldable pub request_id_middleware : Config → ℤ → Middleware S
  unfolding middleware applies
  request_id_middleware cfg order = record {
    bean_order = order;
    applies = applies cfg;
    wrap = middleware;
  }
