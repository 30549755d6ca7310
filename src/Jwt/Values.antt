-- ===== src/Jwt/Values.antt =====
-- The claims of a token, as JSON values.
use servion.Base.{ℕ, String, Bool, not, ◌||◌, List, [], ◌∷◌, map, select, none, some, ◌==◌, find}
use servion.Text.{is_empty, fields_func, trim_space}

-- A member of an array of a claim.
pub data Item : Type 0 where
  text : String → Item
  no_text : Item

pub data Value : Type 0 where
  string : String → Value
  array : List Item → Value
  -- A number, a truth value, an object or null.
  scalar : Value

-- jwt.MapClaims
abbrev pub Claims : Type 0
Claims = List (String × Value)

unfoldable pub string_of : Value → String
string_of (string s) = s
string_of _ = ""

-- claimString
unfoldable pub claim_string : Claims → String → String
unfolding string_of
claim_string claims key = elim (find key claims) [ none ↦ "" | some v ↦ string_of v ]

-- The members of an array that are strings.
unfoldable pub texts : List Item → List String
texts [] = []
texts (text s ∷ items) = s ∷ texts items
texts (no_text ∷ items) = texts items

unfoldable pub is_separator : ℕ → Bool
is_separator r = r == b' ' || r == b','

-- splitClaimString
unfoldable pub split_claim_string : String → List String
unfolding is_separator
split_claim_string s =
    select (λ part. not (is_empty part)) (map trim_space (fields_func is_separator s))

slice_of : Value → List String
unfolding texts split_claim_string
slice_of (array items) = texts items
slice_of (string s) = split_claim_string s
slice_of scalar = []

-- claimStringSlice
unfoldable pub claim_string_slice : Claims → String → List String
unfolding slice_of
claim_string_slice claims key = elim (find key claims) [ none ↦ [] | some v ↦ slice_of v ]

scope_of : Value → List String
unfolding texts split_claim_string
scope_of (string s) = split_claim_string s
scope_of (array items) = texts items
scope_of scalar = []

-- parseScopeClaim
unfoldable pub parse_scope_claim : Claims → String → List String
unfolding scope_of
parse_scope_claim claims key = elim (find key claims) [ none ↦ [] | some v ↦ scope_of v ]
