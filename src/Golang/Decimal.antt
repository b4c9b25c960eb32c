-- ===== src/Golang/Decimal.antt =====
-- strconv.Itoa, Atoi and ParseUint, and the %d and %0wd of fmt.
pub mod Laws
use Prim.Native.Char.{Char, code}
use attacknet.Base.{
  ℕ, zero, suc, ◌+◌, ◌-◌, ◌*◌, ◌/◌, ◌%◌, ◌^◌, Bool, ◌&&◌, Option, none, some, ltb, leb, ◌==◌,
  if◌then◌else◌, String,
}
use attacknet.Base.Int.{ℤ, pos, negsuc, sub_ℕ}
use attacknet.Base.Text.{◌++◌}

-- The digit of a number below ten.
unfoldable pub digit : ℕ → Char
digit d =
    if d == 0
    then "0"
    else if d == 1
    then "1"
    else if d == 2
    then "2"
    else if d == 3
    then "3"
    else if d == 4
    then "4"
    else if d == 5
    then "5"
    else if d == 6
    then "6"
    else if d == 7
    then "7"
    else if d == 8
    then "8"
    else "9"

-- Writes `n` before `out`; one round for each digit.
unfoldable pub format_onto : ℕ → ℕ → String → String
unfolding digit
format_onto zero n out = out
format_onto (suc rounds) n out =
    let more = format_onto rounds (n / 10) (String.◌∷◌ (digit (n % 10)) out) in
    if ltb n 10 then String.◌∷◌ (digit n) out else more

-- %d of a number that is not negative. It has fewer digits than `n + 1`.
unfoldable pub itoa : ℕ → String
unfolding format_onto
itoa n = format_onto (suc n) n ""

unfoldable pub itoa_ℤ : ℤ → String
unfolding itoa
itoa_ℤ (pos n) = itoa n
itoa_ℤ (negsuc n) = "-" ++ itoa (suc n)

unfoldable pub zeros : ℕ → String
zeros zero = ""
zeros (suc n) = String.◌∷◌ "0" (zeros n)

-- How many characters a text has.
unfoldable pub width : String → ℕ
width String.[] = 0
width (String.◌∷◌ c s) = suc (width s)

-- %0wd of a number that is not negative.
unfoldable pub padded : ℕ → ℕ → String
unfolding itoa zeros width
padded w n = zeros (w - width (itoa n)) ++ itoa n

abbrev pub is_digit : ℕ → Bool
is_digit c = leb 48 c && leb c 57

unfoldable pub scan : ℕ → String → Option ℕ
scan n String.[] = some n
scan n (String.◌∷◌ c s) =
    let rest = scan (n * 10 + (code c - 48)) s in if is_digit (code c) then rest else none

unfoldable pub digits_of : String → Option ℕ
unfolding scan
digits_of String.[] = none
digits_of (String.◌∷◌ c s) = scan 0 (String.◌∷◌ c s)

abbrev below : ℕ → Option ℕ → Option ℕ
below limit none = none
below limit (some n) = if ltb n limit then some n else none

-- strconv.ParseUint(s, 10, 32)
unfoldable pub parse_uint32 : String → Option ℕ
unfolding digits_of
parse_uint32 s = below (2 ^ 32) (digits_of s)

abbrev positive : Option ℕ → Option ℤ
positive none = none
positive (some n) = some (pos n)

abbrev negative : Option ℕ → Option ℤ
negative none = none
negative (some n) = some (sub_ℕ 0 n)

-- strconv.Atoi, whose result is an int of 64 bits.
unfoldable pub atoi : String → Option ℤ
unfolding digits_of
atoi String.[] = none
atoi (String.◌∷◌ c s) =
    if code c == b'-'
    then negative (below (2 ^ 63 + 1) (digits_of s))
    else if code c == b'+'
    then positive (below (2 ^ 63) (digits_of s))
    else positive (below (2 ^ 63) (digits_of (String.◌∷◌ c s)))
