-- ===== src/Golang/Float.antt =====
-- IEEE 754 arithmetic as Go does it, exact to the bit: float32 in pkg/plan/suite/targeting.go and
-- pkg/plan/network/network_builder.go, float64 in time.ParseDuration.
-- A finite value is a sign and a number of units, where a unit is the least positive value of the
-- format; every finite value of a format is a whole number of its units.
use attacknet.Base.{
  ℕ, ◌+◌, ◌-◌, ◌*◌, ◌/◌, ◌%◌, ◌^◌, Bool, true, false, not, ◌&&◌, List, [], ◌∷◌, Option, none, some,
  ltb, leb, ◌==◌, if◌then◌else◌,
}
use attacknet.Base.Int.{ℤ, pos, negsuc, pos_part, neg_part, sub_ℕ, ◌+ℤ◌, ltb_ℤ}

-- A significand of `precision` bits; a unit is 2 ^ -unit_exp; 2 ^ top units are too many.
pub record Format : Type 0 where
  pub precision : ℕ
  pub unit_exp : ℕ
  pub top : ℕ

abbrev pub float32 : Format
float32 = record { precision = 24; unit_exp = 149; top = 277 }

abbrev pub float64 : Format
float64 = record { precision = 53; unit_exp = 1074; top = 2098 }

pub data Float : Type 0 where
  nan : Float
  inf : (negative : Bool) → Float
  fin : (negative : Bool) (units : ℕ) → Float

abbrev shifts : List ℕ
shifts = 4096 ∷ 2048 ∷ 1024 ∷ 512 ∷ 256 ∷ 128 ∷ 64 ∷ 32 ∷ 16 ∷ 8 ∷ 4 ∷ 2 ∷ 1 ∷ []

bits_by : List ℕ → ℕ → ℕ
bits_by [] q = if q == 0 then 0 else 1
bits_by (s ∷ ss) q =
    let hit = leb (2 ^ s) q in (if hit then s else 0) + bits_by ss (if hit then q / 2 ^ s else q)

-- How many binary digits `q` has, for q < 2 ^ 8192.
unfoldable pub bit_length : ℕ → ℕ
unfolding bits_by
bit_length q = bits_by shifts q

-- What the remainder `r` of a division by `d` adds to the quotient `m`: to nearest, ties to even.
unfoldable pub carry : ℕ → ℕ → ℕ → ℕ
carry m r d = if ltb (2 * r) d then 0 else if ltb d (2 * r) then 1 else m % 2

-- The value of the format nearest to num / den units.
unfoldable pub round : Format → Bool → ℕ → ℕ → Float
unfolding bit_length carry
round f negative num den =
    let step = 2 ^ (bit_length (num / den) - f.precision) in
    let d = den * step in
    let units = (num / d + carry (num / d) (num % d) d) * step in
    if leb (2 ^ f.top) units then inf negative else fin negative units

abbrev pub xor_sign : Bool → Bool → Bool
xor_sign false b = b
xor_sign true b = not b

-- A constant num / den of the source, converted to the format.
unfoldable pub constant : Format → ℕ → ℕ → Float
unfolding round
constant f num den = round f false (num * 2 ^ f.unit_exp) den

-- float32(n) for an int n that is not negative.
unfoldable pub of_ℕ : Format → ℕ → Float
unfolding constant
of_ℕ f n = constant f n 1

-- a * b
unfoldable pub mul : Format → Float → Float → Float
unfolding round
mul f (fin a x) (fin b y) = round f (xor_sign a b) (x * y) (2 ^ f.unit_exp)
mul f (fin a x) (inf b) = if x == 0 then nan else inf (xor_sign a b)
mul f (inf a) (fin b y) = if y == 0 then nan else inf (xor_sign a b)
mul f (inf a) (inf b) = inf (xor_sign a b)
mul f nan b = nan
mul f a nan = nan

-- a / b
unfoldable pub div : Format → Float → Float → Float
unfolding round
div f (fin a x) (fin b y) =
    if y == 0
    then (if x == 0 then nan else inf (xor_sign a b))
    else round f (xor_sign a b) (x * 2 ^ f.unit_exp) y
div f (fin a x) (inf b) = fin (xor_sign a b) 0
div f (inf a) (fin b y) = inf (xor_sign a b)
div f (inf a) (inf b) = nan
div f nan b = nan
div f a nan = nan

abbrev pub signed : Bool → ℕ → ℤ
signed false x = pos x
signed true x = sub_ℕ 0 x

abbrev is_negative : ℤ → Bool
is_negative (pos n) = false
is_negative (negsuc n) = true

-- a - b; the sign of a zero result is not told apart.
unfoldable pub sub : Format → Float → Float → Float
unfolding round ◌+ℤ◌
sub f (fin a x) (fin b y) =
    let d = signed a x +ℤ signed (not b) y in round f (is_negative d) (pos_part d + neg_part d) 1
sub f (fin a x) (inf b) = inf (not b)
sub f (inf a) (fin b y) = inf a
sub f (inf false) (inf true) = inf false
sub f (inf true) (inf false) = inf true
sub f (inf _) (inf _) = nan
sub f nan b = nan
sub f a nan = nan

-- a < b
unfoldable pub lt : Float → Float → Bool
lt (fin a x) (fin b y) = ltb_ℤ (signed a x) (signed b y)
lt (fin a x) (inf b) = not b
lt (inf a) (fin b y) = a
lt (inf a) (inf b) = a && not b
lt nan b = false
lt a nan = false

-- a == b
unfoldable pub eq : Float → Float → Bool
unfolding lt
eq nan b = false
eq a nan = false
eq a b = not (lt a b) && not (lt b a)

-- a <= b
unfoldable pub le : Float → Float → Bool
unfolding lt
le nan b = false
le a nan = false
le a b = not (lt b a)

-- int(a), which drops the fraction; `none` where Go leaves the result to the implementation.
unfoldable pub to_int : Format → Float → Option ℤ
to_int f nan = none
to_int f (inf b) = none
to_int f (fin a x) =
    let n = x / 2 ^ f.unit_exp in if ltb n (2 ^ 63) then some (signed a n) else none
