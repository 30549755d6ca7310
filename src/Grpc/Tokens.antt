-- ===== src/Grpc/Tokens.antt =====
-- The credentials that a client attaches to its calls.
use Prim.Native.String
use servion.Base.{[], ◌∷◌, some, ◌≡◌, refl, ap, ◌∙◌, All, inr}
use servion.Text.{is_space}
use servion.Text.Split.{IsWord}
use servion.Auth.{bearer_token}
use servion.Auth.Bearer.{bearer_token-append}
use servion.Grpc.{
  Context, Metadata, first_token, bearer_of, values_of, bearer_from_context, TokenAuth,
  get_request_metadata,
}

-- gRPC delivers every header that the credentials ask for.
abbrev pub Delivered : TokenAuth → Metadata → Type 0
Delivered t md = All (λ entry. values_of entry.0 md ≡ entry.1 ∷ []) (get_request_metadata t)

-- A token that is not empty and holds no white space comes back from the header "Bearer " + token
-- of an HTTP request, and from the context of a call to which gRPC delivered the client's
-- credentials.
pub bearer_from_context-get_request_metadata :
    (t : TokenAuth) (ctx : Context) (md : Metadata)
    → IsWord is_space t.token
    → ctx.incoming ≡ some md
    → Delivered t md
    → (bearer_token (String.◌++◌ "Bearer " t.token) ≡ some t.token)
      × (bearer_from_context ctx ≡ inr t.token)
unfolding bearer_from_context bearer_of get_request_metadata first_token
bearer_from_context-get_request_metadata t ctx md w i (v, _) =
    let b = bearer_token-append t.token w in
    (b, ap bearer_of i ∙ ap first_token v ∙ rw (b, first_token) refl)
