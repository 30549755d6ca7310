-- ===== src/Jwt/Scopes.antt =====
-- Scopes and roles that a token carries in one string.
use Prim.Native.String.{[], ◌∷◌}
use servion.Base.{
  String, Char, code, true, not, List, [], ◌∷◌, map, select, All, some, ◌≡◌, refl, find, ap,
}
use servion.Text.{is_empty, is_space, trim_space, trim_left, trim_right, keep_char, join}
use servion.Text.Split.{Free, IsWord, fields_func-join}
use servion.Jwt.{
  Claims, string, is_separator, split_claim_string, claim_string_slice, parse_scope_claim,
}

trim_right_of_Free : (s : String) → Free is_space s → trim_right s ≡ s
unfolding trim_right keep_char
trim_right_of_Free [] f = refl
trim_right_of_Free (c ∷ []) (e, f) = rw e refl
trim_right_of_Free (c ∷ d ∷ s) (e, f) = rw (trim_right_of_Free (d ∷ s) f) refl

trim_space_of_Free : (s : String) → Free is_space s → trim_space s ≡ s
unfolding trim_space trim_left
trim_space_of_Free [] f = trim_right_of_Free [] f
trim_space_of_Free (c ∷ s) (e, f) = rw e (trim_right_of_Free (c ∷ s) (e, f))

-- A name that a token can carry: not empty, without white space and commas.
abbrev pub IsName : String → Type 0
IsName w = IsWord is_separator w × Free is_space w

trimmed_names :
    (ws : List String)
    → All IsName ws
    → select (λ part. not (is_empty part)) (map trim_space ws) ≡ ws
trimmed_names [] h = refl
trimmed_names (w ∷ ws) (((n, g), f), h) =
    rw (trim_space_of_Free w f, n) (ap (◌∷◌ w) (trimmed_names ws h))

IsName-IsWord : (ws : List String) → All IsName ws → All (IsWord is_separator) ws
IsName-IsWord [] h = tt
IsName-IsWord (w ∷ ws) ((g, f), h) = (g, IsName-IsWord ws h)

split_claim_string-join :
    (c : Char) (ws : List String)
    → is_separator (code c) ≡ true
    → All IsName ws
    → split_claim_string (join ws (c ∷ "")) ≡ ws
unfolding split_claim_string
split_claim_string-join c ws e h =
    rw (fields_func-join is_separator c ws e (IsName-IsWord ws h)) (trimmed_names ws h)

-- Names that are not empty and hold neither white space nor commas, and that a claim of the token
-- joins by spaces or by commas, are the scopes and the roles that the provider reads from that
-- claim.
pub claims_of_joined :
    (claims : Claims) (key : String) (c : Char) (ws : List String)
    → find key claims ≡ some (string (join ws (c ∷ "")))
    → is_separator (code c) ≡ true
    → All IsName ws
    → (parse_scope_claim claims key ≡ ws) × (claim_string_slice claims key ≡ ws)
unfolding parse_scope_claim claim_string_slice
claims_of_joined claims key c ws f e h = (
  rw (f, parse_scope_claim) (split_claim_string-join c ws e h),
  rw (f, claim_string_slice) (split_claim_string-join c ws e h),
)
