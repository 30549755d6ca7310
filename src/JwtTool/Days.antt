-- ===== src/JwtTool/Days.antt =====
-- Times of life that are written in days.
use Prim.Native.String
use text.Mathlib.TextLemmas.{cons-append}
use servion.Base.{
  ℕ, ◌-◌, ◌*◌, ◌%◌, ◌^◌, ◌≤◌, ◌<◌, zero, suc, String, code, true, false, Option, some, ◌≡◌, refl,
  ap, ◌∙◌, ◌==◌, arith, lt→ltb, le→not_ltb,
}
use servion.Base.Int.{ℤ, pos, negsuc}
use servion.Text.{is_empty, is_space, has_suffix}
use servion.JwtTool.Durations.{
  is_digit, digits_value, signed_number, unsigned_part, scan_int, drop_last, day, signed64, days_of,
  parse_duration,
}

abbrev pub IsDigits : String → Type 0
IsDigits String.[] = Unit
IsDigits (String.◌∷◌ c s) = (is_digit (code c) ≡ true) × IsDigits s

has_suffix-append : (s : String) → has_suffix (String.◌++◌ s "d") "d" ≡ true
unfolding has_suffix
has_suffix-append String.[] = refl
has_suffix-append (String.◌∷◌ c s) = rw (cons-append c s "d") (ground (arith, has_suffix-append s))

not_empty_append : (s : String) → is_empty (String.◌++◌ s "d") ≡ false
not_empty_append String.[] = refl
not_empty_append (String.◌∷◌ c s) = rw (cons-append c s "d") refl

drop_last_cons :
    (c : Prim.Native.Char.Char) (s : String)
    → is_empty s ≡ false
    → drop_last (String.◌∷◌ c s) ≡ String.◌∷◌ c (drop_last s)
unfolding drop_last
drop_last_cons c String.[] e = cc
drop_last_cons c (String.◌∷◌ d s) e = refl

drop_last-append : (s : String) → drop_last (String.◌++◌ s "d") ≡ s
unfolding drop_last
drop_last-append String.[] = refl
drop_last-append (String.◌∷◌ c s) = rw (cons-append c s "d") (
    drop_last_cons c (String.◌++◌ s "d") (not_empty_append s)
    ∙ ap (String.◌∷◌ c) (drop_last-append s))

not_other :
    (c : ℕ)
    → is_digit c ≡ true
    → ((c == b'\n') ≡ false) × (is_space c ≡ false) × ((c == b'-') ≡ false) × ((c == b'+') ≡ false)
unfolding is_space
not_other c d = (ground arith, ground arith, ground arith, ground arith)

scan_int_of_digits :
    (s : String)
    → is_empty s ≡ false
    → IsDigits s
    → scan_int s ≡ signed_number false (digits_value 0 s)
unfolding scan_int unsigned_part
scan_int_of_digits String.[] e h = cc
scan_int_of_digits (String.◌∷◌ c s) e (d, h) =
    let (newline, space, minus, plus) = not_other (code c) d in
    rw (newline, space, minus, plus, d) refl

signed_number_small : (n : ℕ) → n < 2 ^ 63 → signed_number false n ≡ some (pos n)
unfolding signed_number
signed_number_small zero h = refl
signed_number_small (suc n) h = rw (lt→ltb (suc n) (2 ^ 63) h) refl

mod_of_small : (m : ℕ) → m < 2 ^ 64 → m % 2 ^ 64 ≡ m
mod_of_small m h = omega arith

signed64_low : (m : ℕ) → m < 2 ^ 63 → signed64 m ≡ pos m
unfolding signed64
signed64_low m h = rw (lt→ltb m (2 ^ 63) h) refl

signed64_high : (m : ℕ) → 2 ^ 63 ≤ m → signed64 m ≡ negsuc (2 ^ 64 - m - 1)
unfolding signed64
signed64_high m h = rw (le→not_ltb m (2 ^ 63) h) refl

days_of_few : (n : ℕ) → n ≤ 106751 → days_of (pos n) ≡ pos (n * day)
unfolding days_of
days_of_few n h =
    ap signed64 (mod_of_small (n * day) (omega arith)) ∙ signed64_low (n * day) (omega arith)

days_of_many : (n : ℕ) → 106752 ≤ n → n ≤ 213503 → (k : ℕ) × (days_of (pos n) ≡ negsuc k)
unfolding days_of
days_of_many n h l = (
  2 ^ 64 - n * day - 1,
  ap signed64 (mod_of_small (n * day) (omega arith)) ∙ signed64_high (n * day) (omega arith),
)

parse_duration-scan :
    (parse_std : String → Option ℤ) (s : String) (n : ℤ)
    → scan_int s ≡ some n
    → parse_duration parse_std (String.◌++◌ s "d") ≡ some (days_of n)
unfolding parse_duration
parse_duration-scan parse_std s n e = rw (has_suffix-append s, drop_last-append s, e) refl

-- A number of days up to 106751 is read as that many times 24 hours; one from 106752 to 213503
-- wraps around to a negative time, so that the token has expired before it is printed.
pub parse_duration_days :
    (parse_std : String → Option ℤ) (s : String)
    → is_empty s ≡ false
    → IsDigits s
    → let parsed = parse_duration parse_std (String.◌++◌ s "d") in
      (digits_value 0 s ≤ 106751 → parsed ≡ some (pos (digits_value 0 s * day)))
      × (106752 ≤ digits_value 0 s
          → digits_value 0 s ≤ 213503
          → (k : ℕ) × (parsed ≡ some (negsuc k)))
parse_duration_days parse_std s e h =
    let n = digits_value 0 s in
    let scanned = λ (l : n < 2 ^ 63). scan_int_of_digits s e h ∙ signed_number_small n l in
    (
      λ few.
          parse_duration-scan parse_std s (pos n) (scanned (omega arith))
          ∙ ap some (days_of_few n few),
      λ low high.
          let (k, wrapped) = days_of_many n low high in
          (k, parse_duration-scan parse_std s (pos n) (scanned (omega arith)) ∙ ap some wrapped),
    )
