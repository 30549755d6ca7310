-- ===== src/Text.antt =====
-- The functions of Go's package strings that the program calls, over valid UTF-8 text: a text is
-- its characters, and `bytes` is its UTF-8 encoding.
pub mod Split
use Prim.Native.String.{[], ◌∷◌}
use Prim.Native.String
use servion.Base.{
  ℕ, ◌+◌, ◌-◌, ◌*◌, ◌/◌, ◌%◌, zero, suc, String, Char, code, Bool, true, false, not, ◌&&◌, ◌||◌,
  List, [], ◌∷◌, ◌++◌, if◌then◌else◌, leb, ltb, ◌==◌, str_eq, select,
}

-- s == ""
abbrev pub is_empty : String → Bool
is_empty [] = true
is_empty (c ∷ s) = false

unfoldable pub has_prefix : String → String → Bool
has_prefix s [] = true
has_prefix [] (c ∷ p) = false
has_prefix (d ∷ s) (c ∷ p) = code d == code c && has_prefix s p

-- unicode.IsSpace
unfoldable pub is_space : ℕ → Bool
is_space c =
    (leb 9 c && leb c 13)
    || c == 32
    || c == 0x85
    || c == 0xa0
    || c == 0x1680
    || (leb 0x2000 c && leb c 0x200a)
    || c == 0x2028
    || c == 0x2029
    || c == 0x202f
    || c == 0x205f
    || c == 0x3000

-- A character before the first of the parts.
unfoldable pub onto_first : Char → List String → List String
onto_first c [] = (c ∷ []) ∷ []
onto_first c (w ∷ ws) = (c ∷ w) ∷ ws

unfoldable pub split_func : (ℕ → Bool) → String → List String
unfolding onto_first
split_func sep [] = "" ∷ []
split_func sep (c ∷ s) =
    let rest = split_func sep s in if sep (code c) then "" ∷ rest else onto_first c rest

-- strings.Split for a separator of one character.
unfoldable pub split : String → ℕ → List String
unfolding split_func
split s sep = split_func (λ c. c == sep) s

unfoldable pub trim_left : String → String
unfolding is_space
trim_left [] = []
trim_left (c ∷ s) = let rest = trim_left s in if is_space (code c) then rest else c ∷ s

unfoldable pub keep_char : Char → String → String
unfolding is_space
keep_char c [] = if is_space (code c) then [] else c ∷ []
keep_char c (d ∷ s) = c ∷ d ∷ s

unfoldable pub trim_right : String → String
unfolding keep_char
trim_right [] = []
trim_right (c ∷ s) = keep_char c (trim_right s)

unfoldable pub trim_space : String → String
unfolding trim_left trim_right
trim_space s = trim_right (trim_left s)

-- strings.FieldsFunc: the non-empty parts.
unfoldable pub fields_func : (ℕ → Bool) → String → List String
unfolding split_func
fields_func sep s = select (λ w. not (is_empty w)) (split_func sep s)

unfoldable pub fields : String → List String
unfolding fields_func is_space
fields s = fields_func is_space s

unfoldable pub to_lower : ℕ → ℕ
to_lower c = if leb b'A' c && leb c b'Z' then c + 32 else c

-- strings.EqualFold, for a second argument of ASCII letters that have no fold outside ASCII, which
-- holds for "Bearer".
unfoldable pub equal_fold : String → String → Bool
unfolding to_lower
equal_fold [] [] = true
equal_fold [] (c ∷ t) = false
equal_fold (d ∷ s) [] = false
equal_fold (d ∷ s) (c ∷ t) = to_lower (code d) == to_lower (code c) && equal_fold s t

unfoldable pub contains : String → String → Bool
unfolding has_prefix
contains [] sub = is_empty sub
contains (c ∷ s) sub = has_prefix (c ∷ s) sub || contains s sub

unfoldable pub has_suffix : String → String → Bool
has_suffix [] p = is_empty p
has_suffix (c ∷ s) p = str_eq (c ∷ s) p || has_suffix s p

-- UTF-8.
unfoldable pub encode : ℕ → List ℕ
encode c =
    if ltb c 0x80
    then c ∷ []
    else if ltb c 0x800
    then (0xc0 + c / 64) ∷ (0x80 + c % 64) ∷ []
    else if ltb c 0x10000
    then (0xe0 + c / 4096) ∷ (0x80 + (c / 64) % 64) ∷ (0x80 + c % 64) ∷ []
    else (0xf0 + c / 262144)
      ∷ (0x80 + (c / 4096) % 64)
      ∷ (0x80 + (c / 64) % 64)
      ∷ (0x80 + c % 64)
      ∷ []

unfoldable pub bytes : String → List ℕ
unfolding encode
bytes [] = []
bytes (c ∷ s) = encode (code c) ++ bytes s

-- The digits of bases up to 16.
unfoldable pub digit : ℕ → Char
digit d =
    if d == 0
    then "0"
    else if d == 1
    then "1"
    else if d == 2
    then "2"
    else if d == 3
    then "3"
    else if d == 4
    then "4"
    else if d == 5
    then "5"
    else if d == 6
    then "6"
    else if d == 7
    then "7"
    else if d == 8
    then "8"
    else if d == 9
    then "9"
    else if d == 10
    then "a"
    else if d == 11
    then "b"
    else if d == 12
    then "c"
    else if d == 13
    then "d"
    else if d == 14
    then "e"
    else "f"

itoa_onto : ℕ → ℕ → String → String
unfolding digit
itoa_onto zero n acc = acc
itoa_onto (suc fuel) n acc =
    let acc' : String = digit (n % 10) ∷ acc in
    let more = itoa_onto fuel (n / 10) acc' in if ltb n 10 then acc' else more

-- strconv.Itoa for a number that is not negative; a number has no more digits than its successor.
unfoldable pub itoa : ℕ → String
unfolding itoa_onto
itoa n = itoa_onto (suc n) n ""

-- strings.Join
unfoldable pub join : List String → String → String
join [] sep = ""
join (w ∷ []) sep = w
join (w ∷ v ∷ ws) sep = String.◌++◌ w (String.◌++◌ sep (join (v ∷ ws) sep))

unfoldable pub drop : ℕ → String → String
drop zero s = s
drop (suc n) [] = []
drop (suc n) (c ∷ s) = drop n s

unfoldable pub len : String → ℕ
len [] = 0
len (c ∷ s) = suc (len s)

-- s[len(p):], for a text that is all ASCII up to there.
unfoldable pub drop_prefix : String → String → String
unfolding drop len
drop_prefix s p = drop (len p) s

-- The copy of `s` behind its first `skip` characters, which stand already in what was replaced.
unfoldable pub replace_from : String → String → ℕ → String → String
unfolding has_prefix len
replace_from old new skip [] = []
replace_from old new (suc skip) (c ∷ s) = replace_from old new skip s
replace_from old new zero (c ∷ s) =
    let replaced = replace_from old new (len old - 1) s in
    let copied = replace_from old new 0 s in
    if has_prefix (c ∷ s) old then String.◌++◌ new replaced else c ∷ copied

-- strings.ReplaceAll, for an `old` that is not empty.
unfoldable pub replace_all : String → String → String → String
unfolding replace_from
replace_all s old new = replace_from old new 0 s
