-- ===== src/Auth/Bearer.antt =====
-- The token of an Authorization header.
use Prim.Native.String
use text.Mathlib.TextLemmas.{append_assoc, nil-append, cons-append}
use servion.Base.{String, Char, true, List, [], ◌∷◌, none, some, ◌≡◌, refl, ap, ◌∙◌, arith, All}
use servion.Text.{is_space, is_empty, fields, split_func, equal_fold}
use servion.Text.Split.{IsWord, Free, fields_func-IsWord, split_func_of_Free, split_func-append}
use servion.Auth.{bearer_token, two_fields}

two_fields-IsWord :
    (ws : List String) (token : String)
    → All (IsWord is_space) ws
    → two_fields ws ≡ some token
    → IsWord is_space token
unfolding two_fields
two_fields-IsWord [] token h e = cc
two_fields-IsWord (a ∷ []) token h e = cc
two_fields-IsWord (a ∷ b ∷ []) token (_, (w, _)) e = ground arith
two_fields-IsWord (a ∷ b ∷ c ∷ ws) token h e = cc

-- A token that is taken from a header is not empty and holds no white space.
pub bearer_token-IsWord : (h token : String) → bearer_token h ≡ some token → IsWord is_space token
unfolding bearer_token fields
bearer_token-IsWord h token e = two_fields-IsWord (fields h) token (fields_func-IsWord is_space h) e

abbrev blank : Char
blank = " "

split-header :
    (token : String)
    → Free is_space token
    → split_func is_space (String.◌++◌ "Bearer " token) ≡ "Bearer" ∷ token ∷ []
unfolding is_space
split-header token f =
    rw
      (
        append_assoc "Bearer" (String.◌∷◌ blank "") token,
        cons-append blank "" token,
        nil-append token,
      )
      (split_func-append is_space "Bearer" blank token
          (refl, (refl, (refl, (refl, (refl, (refl, tt)))))) refl
        ∙ ap (◌∷◌ "Bearer") (split_func_of_Free is_space token f))

-- An empty header has no token.
pub bearer_token_of_empty : (h : String) → is_empty h ≡ true → bearer_token h ≡ none
unfolding bearer_token two_fields fields split_func
bearer_token_of_empty String.[] e = refl
bearer_token_of_empty (String.◌∷◌ c s) e = cc

-- And the header that a client builds for such a token, "Bearer " + token, gives it back.
pub bearer_token-append :
    (token : String)
    → IsWord is_space token
    → bearer_token (String.◌++◌ "Bearer " token) ≡ some token
unfolding bearer_token fields equal_fold
bearer_token-append token (n, f) = rw (split-header token f) (rw n)
