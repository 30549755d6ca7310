-- ===== src/JwtTool/Durations.antt =====
-- parseDuration: the text of a time of life.
use Prim.Native.String.{[], ◌∷◌}
use servion.Base.{
  ℕ, ◌+◌, ◌-◌, ◌*◌, ◌%◌, ◌^◌, zero, suc, String, code, Bool, true, false, ◌&&◌, Option, none, some,
  if◌then◌else◌, ltb, leb, ◌==◌,
}
use servion.Base.Int.{ℤ, pos, negsuc}
use servion.Text.{is_space, has_suffix}

abbrev pub is_digit : ℕ → Bool
is_digit c = leb b'0' c && leb c b'9'

-- The number that the leading digits write down, behind the number so far.
unfoldable pub digits_value : ℕ → String → ℕ
digits_value n [] = n
digits_value n (c ∷ s) =
    let more = digits_value (n * 10 + (code c - b'0')) s in if is_digit (code c) then more else n

-- A number of 64 bits with its sign, of that size.
unfoldable pub signed_number : Bool → ℕ → Option ℤ
signed_number negative zero = some (pos 0)
signed_number true (suc n) = if leb n (2 ^ 63 - 1) then some (negsuc n) else none
signed_number false (suc n) = if ltb (suc n) (2 ^ 63) then some (pos (suc n)) else none

unfoldable pub unsigned_part : Bool → String → Option ℤ
unfolding digits_value signed_number
unsigned_part negative [] = none
unsigned_part negative (c ∷ s) =
    if is_digit (code c) then signed_number negative (digits_value 0 (c ∷ s)) else none

-- fmt.Sscanf with "%d" into an int: white space, but no new line, then a sign, then digits; what
-- stands behind them is not read.
unfoldable pub scan_int : String → Option ℤ
unfolding unsigned_part is_space
scan_int [] = none
scan_int (c ∷ s) =
    let behind = scan_int s in
    if code c == b'\n'
    then none
    else if is_space (code c)
    then behind
    else if code c == b'-'
    then unsigned_part true s
    else if code c == b'+'
    then unsigned_part false s
    else unsigned_part false (c ∷ s)

-- strings.TrimSuffix(s, "d"), of a text that ends so.
unfoldable pub drop_last : String → String
drop_last [] = []
drop_last (c ∷ []) = []
drop_last (c ∷ d ∷ s) = c ∷ drop_last (d ∷ s)

-- 24 * time.Hour
abbrev pub day : ℕ
day = 86_400_000_000_000

-- The number of two's complement, of 64 bits.
unfoldable pub signed64 : ℕ → ℤ
signed64 n = if ltb n (2 ^ 63) then pos n else negsuc (2 ^ 64 - n - 1)

-- time.Duration(days) * 24 * time.Hour, which wraps around.
unfoldable pub days_of : ℤ → ℤ
unfolding signed64
days_of (pos n) = signed64 ((n * day) % 2 ^ 64)
days_of (negsuc n) = signed64 ((2 ^ 64 - ((n + 1) * day) % 2 ^ 64) % 2 ^ 64)

-- parseDuration; `parse_std` is time.ParseDuration.
unfoldable pub parse_duration : (String → Option ℤ) → String → Option ℤ
unfolding scan_int drop_last days_of
parse_duration parse_std s =
    if has_suffix s "d"
    then elim (scan_int (drop_last s)) [ none ↦ none | some days ↦ some (days_of days) ]
    else parse_std s
