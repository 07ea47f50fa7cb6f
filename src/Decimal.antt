-- ===== src/Decimal.antt =====
-- crates/ingestion/src/decimal.rs: exact parsing of decimal strings to µ units. A string is the list
-- of its bytes.
pub mod Exact
mod Tests
use polybot.Common.{
  ℕ, ◌+◌, ◌-◌, ◌*◌, ◌^◌, Bool, true, false, ◌&&◌, Option, none, some, List, [], ◌∷◌, Result, ok,
  err, ◌>>=◌, ok_or, and_then, ltb, leb, ◌==◌, if◌then◌else◌, length,
}

pub data DecimalError : Type 0 where
  empty bad_char too_many_decimals overflow : DecimalError

abbrev pub u64_max : ℕ
u64_max = 18446744073709551615

-- `u64::checked_mul`
abbrev pub checked_mul : ℕ → ℕ → Option ℕ
checked_mul a b = if leb (a * b) u64_max then some (a * b) else none

-- `u64::checked_add`
abbrev pub checked_add : ℕ → ℕ → Option ℕ
checked_add a b = if leb (a + b) u64_max then some (a + b) else none

abbrev pub is_ascii_digit : ℕ → Bool
is_ascii_digit b = leb b'0' b && leb b b'9'

unfoldable pub all_digits : List ℕ → Bool
all_digits [] = true
all_digits (b ∷ bs) = is_ascii_digit b && all_digits bs

abbrev pub is_empty : List ℕ → Bool
is_empty [] = true
is_empty (b ∷ bs) = false

-- `s.split_once('.')`, and `(s, "")` where there is no dot.
unfoldable pub split_dot : List ℕ → List ℕ × List ℕ
split_dot [] = ([], [])
split_dot (b ∷ bs) = let (i, f) = split_dot bs in if b == b'.' then ([], bs) else (b ∷ i, f)

-- The loop over the integer part.
unfoldable pub int_loop : List ℕ → ℕ → Result ℕ DecimalError
int_loop [] value = ok value
int_loop (b ∷ bs) value =
    ok_or (and_then (checked_mul value 10) (λ v. checked_add v (b - b'0'))) DecimalError.overflow
    >>= int_loop bs

-- The loop over the fraction.
unfoldable pub frac_loop : List ℕ → ℕ → ℕ
frac_loop [] frac = frac
frac_loop (b ∷ bs) frac = frac_loop bs (frac * 10 + (b - b'0'))

unfoldable pub int_value : List ℕ → Result ℕ DecimalError
int_value i =
    if is_empty i then ok 0 else if all_digits i then int_loop i 0 else err DecimalError.bad_char

unfoldable pub add_frac : List ℕ → ℕ → Result ℕ DecimalError
add_frac f value =
    if is_empty f
    then ok value
    else if all_digits f
    then ok_or (checked_add value (frac_loop f 0 * 10 ^ (6 - length f))) DecimalError.overflow
    else err DecimalError.bad_char

unfoldable pub parse_micro : List ℕ → Result ℕ DecimalError
unfolding split_dot int_value add_frac int_loop frac_loop all_digits
parse_micro s =
    let (int_part, frac_part) = split_dot s in
    if is_empty int_part && is_empty frac_part
    then err DecimalError.empty
    else if ltb 6 (length frac_part)
    then err DecimalError.too_many_decimals
    else (do
      value ← int_value int_part
      scaled ← ok_or (checked_mul value 1000000) DecimalError.overflow
      add_frac frac_part scaled)
