-- ===== src/Options.antt =====
-- utils.go, ParseOptions and ParsePrefixList: flags and prefixes separated by semicolons.
pub mod Laws
mod Examples
use servion.Base.{
  String, Bool, true, not, List, [], ◌∷◌, map, select, if◌then◌else◌, put, find, Option, none, some,
}
use servion.Text.{is_empty, split, trim_space}

-- The loop of ParseOptions over the parts.
set_options : List String → List (String × Bool) → List (String × Bool)
set_options [] cache = cache
set_options (part ∷ parts) cache =
    let key = trim_space part in
    set_options parts (if is_empty key then cache else put key true cache)

-- ParseOptions
unfoldable pub parse_options : String → List (String × Bool)
unfolding set_options
parse_options str = set_options (split str b';') []

-- options[name]: false for a missing key.
unfoldable pub enabled : List (String × Bool) → String → Bool
enabled options name = elim (find name options) [ none ↦ Bool.false | some b ↦ b ]

-- ParsePrefixList
unfoldable pub parse_prefix_list : String → List String
parse_prefix_list str = select (λ p. not (is_empty p)) (map trim_space (split str b';'))
