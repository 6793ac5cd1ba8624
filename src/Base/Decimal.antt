-- ===== src/Base/Decimal.antt =====
-- Decimal numbers in texts: strconv.Atoi, and the verb %d of fmt.Sscanf.
use Prim.Native.Char.{Char, code}
use osg_gateway.Base.Text.{eq_char}
use osg_gateway.Base.{
  ℕ, zero, suc, true, false, ◌+◌, ◌-◌, ◌*◌, ◌^◌, String, Bool, ◌&&◌, Option, none, some,
  if◌then◌else◌, leb,
}
use osg_gateway.Base.Int.{ℤ, pos, negsuc, max_int64}

abbrev pub is_digit : Char → Bool
is_digit c = leb 48 (code c) && leb (code c) 57

-- The value of a text of digits after `n`, if it is one.
unfoldable pub digits_value : ℕ → String → Option ℕ
digits_value n String.[] = some n
digits_value n (String.◌∷◌ c s) =
    let rest = digits_value (n * 10 + (code c - 48)) s in if is_digit c then rest else none

abbrev number : String → Option ℕ
number String.[] = none
number (String.◌∷◌ c s) = digits_value 0 (String.◌∷◌ c s)

-- -n
abbrev pub negated : ℕ → ℤ
negated zero = pos 0
negated (suc n) = negsuc n

-- The nearest integer of 64 bits to a number with a sign.
abbrev clamped : Bool → ℕ → ℤ
clamped negative n =
    if negative
    then negated (if leb n (2 ^ 63) then n else 2 ^ 63)
    else pos (if leb n max_int64 then n else max_int64)

abbrev clamped_or_zero : Bool → Option ℕ → ℤ
clamped_or_zero negative none = pos 0
clamped_or_zero negative (some n) = clamped negative n

-- n, _ := strconv.Atoi(s)
unfoldable pub atoi : String → ℤ
unfolding digits_value
atoi String.[] = pos 0
atoi (String.◌∷◌ c s) =
    if eq_char c "-"
    then clamped_or_zero true (number s)
    else if eq_char c "+"
    then clamped_or_zero false (number s)
    else clamped_or_zero false (number (String.◌∷◌ c s))

-- The digits that a text begins with, after `n`; what follows them is not read.
unfoldable pub leading_digits : ℕ → String → ℕ
leading_digits n String.[] = n
leading_digits n (String.◌∷◌ c s) =
    let rest = leading_digits (n * 10 + (code c - 48)) s in if is_digit c then rest else n

abbrev leading_number : String → Option ℕ
leading_number String.[] = none
leading_number (String.◌∷◌ c s) =
    if is_digit c then some (leading_digits 0 (String.◌∷◌ c s)) else none

-- `none` outside the integers of 64 bits.
abbrev in_range : Bool → Option ℕ → Option ℤ
in_range negative none = none
in_range negative (some n) =
    if negative
    then if leb n (2 ^ 63) then some (negated n) else none
    else if leb n max_int64
    then some (pos n)
    else none

-- fmt.Sscanf(s, "%d", &n), of a text without space at its start; `none` is its error.
unfoldable pub scan_int : String → Option ℤ
unfolding leading_digits
scan_int String.[] = none
scan_int (String.◌∷◌ c s) =
    if eq_char c "-"
    then in_range true (leading_number s)
    else if eq_char c "+"
    then in_range false (leading_number s)
    else in_range false (leading_number (String.◌∷◌ c s))
