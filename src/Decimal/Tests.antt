-- ===== src/Decimal/Tests.antt =====
-- Decimal strings.
use Prim.Native.Char.{code}
use Prim.Native.String.{String}
use polybot.Common.{ℕ, ◌≡◌, refl, arith, List, [], ◌∷◌, ◌++◌, ok, err, leb, if◌then◌else◌}
use polybot.Decimal.{DecimalError, parse_micro, u64_max, all_digits}
use polybot.Decimal.Exact.{micro_value, parse_micro_decimal}

abbrev codes : String → List ℕ
codes String.[] = []
codes (String.◌∷◌ c s) = code c ∷ codes s

parses : parse_micro (codes "0.46") ≡ ok 460000
unfolding parse_micro
parses = refl

parses_bare_fraction : parse_micro (codes ".5") ≡ ok 500000
unfolding parse_micro
parses_bare_fraction = refl

rejects_sign : parse_micro (codes "-1.0") ≡ err DecimalError.bad_char
unfolding parse_micro
rejects_sign = refl

rejects_dot : parse_micro (codes ".") ≡ err DecimalError.empty
unfolding parse_micro
rejects_dot = refl

rejects_long : parse_micro (codes "0.1234567") ≡ err DecimalError.too_many_decimals
unfolding parse_micro
rejects_long = refl

rejects_big : parse_micro (codes "18446744073709.551616") ≡ err DecimalError.overflow
unfolding parse_micro
rejects_big = refl

abbrev whole : List ℕ
whole = codes "18446744073709"

abbrev fraction : List ℕ
fraction = codes "551615"

parse_micro_decimal_example : parse_micro (whole ++ b'.' ∷ fraction) ≡ (
    if leb (micro_value whole fraction) u64_max
    then ok (micro_value whole fraction)
    else err DecimalError.overflow)
unfolding all_digits
parse_micro_decimal_example = parse_micro_decimal whole fraction (refl, refl, refl, omega arith)
