-- ===== src/Golang/Seconds.antt =====
-- Seconds of time.Duration, and its conversion to uint32.
use attacknet.Base.{
  ℕ, suc, ◌/◌, ◌%◌, ◌^◌, not, Option, some, if◌then◌else◌, ltb, Outcome, ok, crash,
  unspecified_conversion,
}
use attacknet.Base.Int.{ℤ, pos, negsuc}
use attacknet.Golang.Float.{Float, nan, inf, fin, float64, of_ℕ, div, sub, to_int}
use attacknet.Golang.Duration.{Duration, second}

abbrev negated : Float → Float
negated nan = nan
negated (inf negative) = inf (not negative)
negated (fin negative units) = fin (not negative) units

-- float64(sec) + float64(nsec) / 1e9
seconds_of : ℕ → Float
seconds_of n =
    sub float64 (of_ℕ float64 (n / second))
      (negated (div float64 (of_ℕ float64 (n % second)) (of_ℕ float64 second)))

unfoldable pub seconds : Duration → Float
unfolding seconds_of
seconds (pos n) = seconds_of n
seconds (negsuc n) = negated (seconds_of (suc n))

abbrev within_uint32 : Option ℤ → Outcome ℕ
within_uint32 (some (pos n)) = if ltb n (2 ^ 32) then ok n else crash unspecified_conversion
within_uint32 _ = crash unspecified_conversion

-- uint32(d.Seconds()), which Go leaves to the implementation when the number does not fit.
unfoldable pub uint32_seconds : Duration → Outcome ℕ
unfolding seconds
uint32_seconds d = within_uint32 (to_int float64 (seconds d))
