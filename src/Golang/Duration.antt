-- ===== src/Golang/Duration.antt =====
-- time.Duration: ParseDuration, String and the conversions that the program uses. A duration is a
-- whole number of nanoseconds.
use Prim.Native.Char.{Char, code}
use attacknet.Base.{
  ℕ, zero, suc, ◌+◌, ◌-◌, ◌*◌, ◌/◌, ◌%◌, ◌^◌, Bool, true, false, ◌||◌, not, Option, none, some, ltb,
  ◌==◌, if◌then◌else◌, String,
}
use attacknet.Base.Int.{ℤ, pos, negsuc, sub_ℕ}
use attacknet.Base.Text.{◌++◌, str_eq}
use attacknet.Golang.Float.{Float, float64, of_ℕ, mul, div, to_int}
use attacknet.Golang.Decimal.{is_digit, digit, itoa, width}

abbrev pub Duration : Type 0
Duration = ℤ

abbrev pub second : ℕ
second = 10 ^ 9

infixl 5 ◌>>=◌ ◌>>◌
abbrev ◌>>=◌ {ℓ κ} : {A : Type ℓ} {B : Type κ} → Option A → (A → Option B) → Option B
none >>= f = none
some a >>= f = f a

abbrev ◌>>◌ {ℓ} : {B : Type ℓ} → Option (Unit {0}) → Option B → Option B
m >> k = m >>= λ _. k

-- leadingInt, which refuses a number above 2 ^ 63; it gives the number and the rest of the text.
leading_int : ℕ → String → Option (ℕ × String)
leading_int x String.[] = some (x, "")
leading_int x (String.◌∷◌ c s) =
    let y = x * 10 + (code c - 48) in
    let rest = leading_int y s in
    if not (is_digit (code c))
    then some (x, String.◌∷◌ c s)
    else if ltb (2 ^ 63 / 10) x || ltb (2 ^ 63) y
    then none
    else rest

record Fraction : Type 0 where
  digits : ℕ
  scale : Float
  rest : String

-- leadingFraction; digits that would overflow are dropped.
leading_fraction : Bool → ℕ → Float → String → Fraction
leading_fraction overflow x scale String.[] = record { digits = x; scale = scale; rest = "" }
leading_fraction overflow x scale (String.◌∷◌ c s) =
    let y = x * 10 + (code c - 48) in
    let full = overflow || ltb ((2 ^ 63 - 1) / 10) x || ltb (2 ^ 63) y in
    let skip = leading_fraction true x scale s in
    let take = leading_fraction false y (mul float64 scale (of_ℕ float64 10)) s in
    if not (is_digit (code c))
    then record { digits = x; scale = scale; rest = String.◌∷◌ c s }
    else if full
    then skip
    else take

abbrev with_first : Char → String × String → String × String
with_first c (u, rest) = (String.◌∷◌ c u, rest)

-- The text up to the next dot or digit, and what follows.
leading_unit : String → String × String
leading_unit String.[] = ("", "")
leading_unit (String.◌∷◌ c s) =
    let more = leading_unit s in
    if code c == b'.' || is_digit (code c) then ("", String.◌∷◌ c s) else with_first c more

unit_map : String → Option ℕ
unit_map u =
    if str_eq u "ns"
    then some 1
    else if str_eq u "us" || str_eq u "µs" || str_eq u "μs"
    then some (10 ^ 3)
    else if str_eq u "ms"
    then some (10 ^ 6)
    else if str_eq u "s"
    then some second
    else if str_eq u "m"
    then some (60 * second)
    else if str_eq u "h"
    then some (3600 * second)
    else none

abbrev units_in : Option ℤ → ℕ
units_in (some (pos n)) = n
units_in _ = 0

-- What the digits behind the dot add, in nanoseconds.
fraction_of : Fraction → ℕ → ℕ
fraction_of f unit =
    if f.digits == 0
    then 0
    else units_in (
        to_int float64
          (mul float64 (of_ℕ float64 f.digits) (div float64 (of_ℕ float64 unit) f.scale)))

abbrev up_to : ℕ → Option ℕ
up_to v = if ltb (2 ^ 63) v then none else some v

abbrev guard : Bool → Option (Unit {0})
guard true = some tt
guard false = none

abbrev no_fraction : String → Fraction
no_fraction s = record { digits = 0; scale = of_ℕ float64 1; rest = s }

abbrev starts : (ℕ → Bool) → String → Bool
starts p String.[] = false
starts p (String.◌∷◌ c s) = p (code c)

abbrev drop_one : String → String
drop_one String.[] = ""
drop_one (String.◌∷◌ c s) = s

-- The part of a term behind the leading number.
after_int : String → Fraction
unfolding leading_fraction
after_int s =
    if starts (λ c. c == b'.') s
    then leading_fraction false 0 (of_ℕ float64 1) (drop_one s)
    else no_fraction s

-- One term of the text, such as "1.5h", and the rest.
parse_term : String → Option (ℕ × String)
unfolding leading_int after_int leading_unit unit_map fraction_of
parse_term s = do
  guard (starts (λ c. c == b'.' || is_digit c) s)
  (v, rest) ← leading_int 0 s
  let f = after_int rest
  guard (ltb (width rest) (width s) || ltb (suc (width f.rest)) (width rest))
  let (u, s') = leading_unit f.rest
  unit ← unit_map u
  guard (not (ltb (2 ^ 63 / unit) v))
  total ← up_to (v * unit + fraction_of f unit)
  some (total, s')

parse_terms : ℕ → ℕ → String → Option ℕ
unfolding parse_term
parse_terms zero d s = none
parse_terms (suc fuel) d String.[] = some d
parse_terms (suc fuel) d (String.◌∷◌ c s) = do
  (v, rest) ← parse_term (String.◌∷◌ c s)
  sum ← up_to (d + v)
  parse_terms fuel sum rest

abbrev unsigned_part : String → String
unsigned_part s = if starts (λ c. c == b'-' || c == b'+') s then drop_one s else s

abbrev with_sign : Bool → ℕ → Option Duration
with_sign true d = some (sub_ℕ 0 d)
with_sign false d = if ltb (2 ^ 63 - 1) d then none else some (pos d)

-- time.ParseDuration; `none` for each of its errors. Every term takes a character at least.
unfoldable pub parse_duration : String → Option Duration
unfolding parse_terms width
parse_duration s =
    let body = unsigned_part s in
    if str_eq body "0"
    then some (pos 0)
    else if str_eq body ""
    then none
    else do d ← parse_terms (suc (width body)) 0 body; with_sign (starts (λ c. c == b'-') s) d

-- fmtFrac: the last `places` digits of `v` behind a dot, without trailing zeros.
fraction_text : ℕ → Bool → ℕ → String → String
fraction_text zero printed v out = if printed then "." ++ out else out
fraction_text (suc places) printed v out =
    let printed' = printed || not (v % 10 == 0) in
    fraction_text places printed' (v / 10)
      (if printed' then String.◌∷◌ (digit (v % 10)) out else out)

magnitude_text : ℕ → String
unfolding fraction_text
magnitude_text u =
    let minutes = u / second / 60 in
    let seconds = itoa (u / second % 60) ++ fraction_text 9 false u "s" in
    if u == 0
    then "0s"
    else if ltb u (10 ^ 3)
    then itoa u ++ "ns"
    else if ltb u (10 ^ 6)
    then itoa (u / 10 ^ 3) ++ fraction_text 3 false u "µs"
    else if ltb u second
    then itoa (u / 10 ^ 6) ++ fraction_text 6 false u "ms"
    else if minutes == 0
    then seconds
    else if minutes / 60 == 0
    then itoa minutes ++ "m" ++ seconds
    else itoa (minutes / 60) ++ "h" ++ itoa (minutes % 60) ++ "m" ++ seconds

-- Duration.String, which the verb %s of fmt calls.
unfoldable pub duration_text : Duration → String
unfolding magnitude_text
duration_text (pos n) = magnitude_text n
duration_text (negsuc n) = "-" ++ magnitude_text (suc n)
