-- ===== src/JwtTool/Commands.antt =====
-- The commands of the tool: main, and generate-keys. The keys and their encodings are arguments.
use Prim.Native.String
use servion.Base.{
  ℕ, String, ◌||◌, List, [], ◌∷◌, Option, none, some, ◌⊎◌, inl, inr, if◌then◌else◌, str_eq,
}
use servion.JwtTool.{Fatal, not_generated, not_marshalled}

-- What main goes on with: a command with its arguments, or the usage and an exit status.
pub data Dispatch : Type 0 where
  to_generate_keys : List String → Dispatch
  to_generate_token : List String → Dispatch
  usage : ℕ → Dispatch

unfoldable pub main : List String → Dispatch
main [] = usage 1
main (program ∷ []) = usage 1
main (program ∷ command ∷ args) =
    if str_eq command "generate-keys"
    then to_generate_keys args
    else if str_eq command "generate-token"
    then to_generate_token args
    else if str_eq command "help" || str_eq command "--help" || str_eq command "-h"
    then usage 0
    else usage 1

-- ecdsa.GenerateKey, x509 and base64: none is an error.
pub record KeyLibrary (S Private Public : Type 0) : Type 0 where
  pub generate : S → S × Option Private
  pub public_of : Private → Public
  pub marshal_private : Private → Option (List ℕ)
  pub marshal_public : Public → Option (List ℕ)
  pub encode : List ℕ → String

module _ {S Private Public : Type 0} (keys : KeyLibrary S Private Public) where
  printed : Option (List ℕ) → Option (List ℕ) → Fatal ⊎ List String
  printed none public_der = inl not_marshalled
  printed (some private_der) none = inl not_marshalled
  printed (some private_der) (some public_der) = inr (
      "# ECDSA P-256 key pair"
      ∷ "# Keep the private key secret. Use the public key in jwt.public-key property."
      ∷ ""
      ∷ String.◌++◌ "private-key=" (keys.encode private_der)
      ∷ ""
      ∷ String.◌++◌ "public-key=" (keys.encode public_der)
      ∷ [])

  -- cmdGenerateKeys: the lines that it prints.
  unfoldable pub generate_keys : S → S × (Fatal ⊎ List String)
  unfolding printed
  generate_keys s =
      let (s', made) = keys.generate s in
      elim made [
        | none ↦ (s', inl not_generated)
        | some priv ↦
            (s', printed (keys.marshal_private priv) (keys.marshal_public (keys.public_of priv)))
      ]
