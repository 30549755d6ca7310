-- ===== src/Http/Fields.antt =====
-- http.Header: keys are compared without regard to ASCII case, as the canonical form of
-- textproto does, and a key may have several values.
use Prim.Native.String.{[], ◌∷◌}
use servion.Base.{
  String, code, Bool, false, true, not, ◌&&◌, List, [], ◌∷◌, ◌++◌, ◌==◌, if◌then◌else◌, select,
}
use servion.Text.{to_lower}

unfoldable pub same_key : String → String → Bool
unfolding to_lower
same_key [] [] = true
same_key [] (c ∷ t) = false
same_key (d ∷ s) [] = false
same_key (d ∷ s) (c ∷ t) = to_lower (code d) == to_lower (code c) && same_key s t

abbrev pub Headers : Type 0
Headers = List (String × String)

-- Header.Get: the first value, or "".
unfoldable pub get : String → Headers → String
get name [] = ""
get name ((key, value) ∷ rest) = if same_key key name then value else get name rest

-- Header.Values
unfoldable pub values : String → Headers → List String
values name [] = []
values name ((key, value) ∷ rest) =
    let others = values name rest in if same_key key name then value ∷ others else others

unfoldable pub del : String → Headers → Headers
del name h = select (λ entry. not (same_key entry.0 name)) h

unfoldable pub set : String → String → Headers → Headers
unfolding del
set name value h = (name, value) ∷ del name h

unfoldable pub add : String → String → Headers → Headers
add name value h = h ++ (name, value) ∷ []
