-- ===== src/Options/Laws.antt =====
-- Both readings of a list of flags name the same ones.
use servion.Base.{
  String, Bool, true, false, not, List, [], ◌∷◌, map, any, select, if◌then◌else◌, put, find,
  find-put, ◌≡◌, refl, arith, str_eq, Bool-cases, inl, inr, ◌∙◌,
}
use servion.Text.{is_empty, split, trim_space}
use servion.Options.{set_options, parse_options, enabled, parse_prefix_list}

-- The flag is one of the parts, without the white space around it.
abbrev named : String → List String → Bool
named name parts = any (λ p. str_eq p name) (select (λ p. not (is_empty p)) (map trim_space parts))

if_self : (b : Bool) → (if b then true else false) ≡ b
if_self true = refl
if_self false = refl

set_options-enabled :
    (name : String) (parts : List String) (cache : List (String × Bool))
    → enabled (set_options parts cache) name
      ≡ (if named name parts then true else enabled cache name)
unfolding set_options enabled
set_options-enabled name [] cache = refl
set_options-enabled name (part ∷ parts) cache = elim (Bool-cases (is_empty (trim_space part))) [
  | inl e ↦ rw e (set_options-enabled name parts cache)
  | inr e ↦ rw e (
      ground (
        arith,
        set_options-enabled name parts (put (trim_space part) true cache),
        find-put (trim_space part) name true cache,
      ))
]

-- A flag is on in the options exactly when the list of prefixes that the same text gives has it.
pub enabled-parse_options :
    (str name : String)
    → enabled (parse_options str) name ≡ any (λ p. str_eq p name) (parse_prefix_list str)
unfolding parse_options parse_prefix_list enabled find
enabled-parse_options str name =
    set_options-enabled name (split str b';') [] ∙ if_self (named name (split str b';'))
