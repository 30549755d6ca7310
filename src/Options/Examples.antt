-- ===== src/Options/Examples.antt =====
-- A test of the options, and their theorem at a concrete input.
use servion.Base.{[], ◌∷◌, any, ◌≡◌, refl, str_eq}
use servion.Text.{split, trim_space}
use servion.Options.{parse_options, enabled, parse_prefix_list}
use servion.Options.Laws.{enabled-parse_options}

parse_prefix_list_test : parse_prefix_list " assets ;;spa" ≡ "assets" ∷ "spa" ∷ []
unfolding parse_prefix_list split trim_space
parse_prefix_list_test = refl

enabled-parse_options_example :
    enabled (parse_options " assets ;;spa") "spa"
    ≡ any (λ p. str_eq p "spa") (parse_prefix_list " assets ;;spa")
enabled-parse_options_example = enabled-parse_options " assets ;;spa" "spa"
