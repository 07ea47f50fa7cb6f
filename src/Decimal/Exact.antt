-- ===== src/Decimal/Exact.antt =====
-- `parse_micro` against the value that a decimal string denotes.
use polybot.Common.{
  ℕ, ◌+◌, ◌-◌, ◌*◌, ◌^◌, ◌≤◌, ◌<◌, ◌≡◌, refl, ◌≢◌, inl, inr, true, false, ◌&&◌, List, [], ◌∷◌,
  Result, ok, err, ◌>>=◌, arith, Bool-cases, ltb, leb, if◌then◌else◌, length, ap, sym, ◌∙◌, ok_or,
  and_then, le→ltb, some, none, ◌++◌,
}
use native.Mathlib.Decide.{dec_le}
use polybot.Decimal.{
  checked_mul, checked_add, DecimalError, u64_max, is_empty, all_digits, split_dot, int_loop,
  frac_loop, int_value, add_frac, parse_micro,
}

-- The number that a list of digits denotes, after the digits of `acc`.
abbrev pub digits_value : ℕ → List ℕ → ℕ
digits_value acc [] = acc
digits_value acc (b ∷ bs) = digits_value (acc * 10 + (b - b'0')) bs

-- The value of `i.f` in millionths.
abbrev pub micro_value : List ℕ → List ℕ → ℕ
micro_value i f = digits_value 0 i * 1000000 + digits_value 0 f * 10 ^ (6 - length f)

-- Digits on both sides of the dot, at most six behind it, and one at least.
abbrev pub IsDecimal : List ℕ → List ℕ → Type 0
IsDecimal i f =
    ((is_empty i && is_empty f) ≡ false)
    × (all_digits i ≡ true)
    × (all_digits f ≡ true)
    × (length f ≤ 6)

le-digits_value : (acc : ℕ) (bs : List ℕ) → acc ≤ digits_value acc bs
le-digits_value acc [] = omega arith
le-digits_value acc (b ∷ bs) = omega (arith, le-digits_value (acc * 10 + (b - b'0')) bs)

frac_loop_lem : (acc : ℕ) (bs : List ℕ) → frac_loop bs acc ≡ digits_value acc bs
unfolding frac_loop
frac_loop_lem acc [] = refl
frac_loop_lem acc (b ∷ bs) = frac_loop_lem (acc * 10 + (b - b'0')) bs

abbrev bounded : ℕ → Result ℕ DecimalError
bounded v = if leb v u64_max then ok v else err DecimalError.overflow

step_lem :
    (acc d : ℕ)
    → ok_or (and_then (checked_mul acc 10) (λ v. checked_add v d)) DecimalError.overflow
      ≡ bounded (acc * 10 + d)
step_lem acc d = ground arith

over : (v : ℕ) → u64_max < v → bounded v ≡ err DecimalError.overflow
over v h = ground arith

within : (v : ℕ) → v ≤ u64_max → bounded v ≡ ok v
within v h = ground arith

-- The checked loop gives the value, or overflows where the value does.
int_loop_lem :
    (acc : ℕ) (bs : List ℕ) → acc ≤ u64_max → int_loop bs acc ≡ bounded (digits_value acc bs)
unfolding int_loop
int_loop_lem acc [] h = ground arith
int_loop_lem acc (b ∷ bs) h =
    ap (λ r. r >>= int_loop bs) (step_lem acc (b - b'0'))
    ∙ (elim (dec_le (acc * 10 + (b - b'0')) u64_max) [
      | yes k ↦
          ap (λ r. r >>= int_loop bs) (within (acc * 10 + (b - b'0')) k)
          ∙ int_loop_lem (acc * 10 + (b - b'0')) bs k
      | no k ↦
          ap (λ r. r >>= int_loop bs) (over (acc * 10 + (b - b'0')) (omega arith))
          ∙ sym (
              over (digits_value (acc * 10 + (b - b'0')) bs)
                (omega (arith, le-digits_value (acc * 10 + (b - b'0')) bs)))
    ])

-- Values that only grow can be checked at the end.
bounded-bind :
    (v r : ℕ) (g : ℕ → Result ℕ DecimalError)
    → v ≤ r
    → (v ≤ u64_max → g v ≡ bounded r)
    → (bounded v >>= g) ≡ bounded r
bounded-bind v r g h k = elim (dec_le v u64_max) [
  | yes fits ↦ ap (λ x. x >>= g) (within v fits) ∙ k fits
  | no big ↦ ap (λ x. x >>= g) (over v (omega arith)) ∙ sym (over r (omega arith))
]

int_value_lem : (i : List ℕ) → all_digits i ≡ true → int_value i ≡ bounded (digits_value 0 i)
unfolding int_value
int_value_lem [] h = refl
int_value_lem (b ∷ bs) h = rw h (int_loop_lem 0 (b ∷ bs) (omega arith))

-- A value with its fraction added.
abbrev with_frac : ℕ → List ℕ → ℕ
with_frac w f = w + digits_value 0 f * 10 ^ (6 - length f)

add_frac_lem :
    (f : List ℕ) (w : ℕ)
    → all_digits f ≡ true
    → w ≤ u64_max
    → add_frac f w ≡ bounded (with_frac w f)
unfolding add_frac
add_frac_lem [] w h k = ground arith
add_frac_lem (b ∷ bs) w h k = rw (h, frac_loop_lem 0 (b ∷ bs)) (checked (with_frac w (b ∷ bs)))
  where
    checked :
        (v : ℕ) → ok_or (if leb v u64_max then some v else none) DecimalError.overflow ≡ bounded v
    checked v = ground arith

scale_lem : (v : ℕ) → ok_or (checked_mul v 1000000) DecimalError.overflow ≡ bounded (v * 1000000)
scale_lem v = ground arith

-- The steps of the parser behind its two guards.
abbrev steps : List ℕ → List ℕ → Result ℕ DecimalError
steps i f = int_value i >>= λ v. ok_or (checked_mul v 1000000) DecimalError.overflow >>= add_frac f

steps_lem :
    (i f : List ℕ)
    → all_digits i ≡ true
    → all_digits f ≡ true
    → steps i f ≡ bounded (micro_value i f)
steps_lem i f di df =
    ap (λ r. r >>= λ v. ok_or (checked_mul v 1000000) DecimalError.overflow >>= add_frac f)
      (int_value_lem i di)
    ∙ bounded-bind (digits_value 0 i) (micro_value i f) _ (omega arith) (λ h.
      ap (λ r. r >>= add_frac f) (scale_lem (digits_value 0 i))
      ∙ bounded-bind (digits_value 0 i * 1000000) (micro_value i f) (add_frac f) (omega arith)
          (λ k. add_frac_lem f (digits_value 0 i * 1000000) df k))

split_dot-append : (i f : List ℕ) → all_digits i ≡ true → split_dot (i ++ b'.' ∷ f) ≡ (i, f)
unfolding split_dot all_digits
split_dot-append [] f h = refl
split_dot-append (b ∷ i) f h = ground (arith, split_dot-append i f)

parse_micro_parts :
    (s i f : List ℕ)
    → split_dot s ≡ (i, f)
    → parse_micro s ≡ (
        if is_empty i && is_empty f
        then err DecimalError.empty
        else if ltb 6 (length f)
        then err DecimalError.too_many_decimals
        else steps i f)
unfolding parse_micro
parse_micro_parts s i f e = rw (e, parse_micro)

-- A decimal of digits, with a dot and at most six digits behind it, parses to its exact value in
-- millionths, or overflows exactly if that is more than a `u64` holds.
pub parse_micro_decimal :
    (i f : List ℕ)
    → IsDecimal i f
    → parse_micro (i ++ b'.' ∷ f)
      ≡ (if leb (micro_value i f) u64_max then ok (micro_value i f) else err DecimalError.overflow)
parse_micro_decimal i f (ne, di, df, h) =
    parse_micro_parts (i ++ b'.' ∷ f) i f (split_dot-append i f di)
    ∙ rw (ne, le→ltb 6 (length f) h) (steps_lem i f di df)

int_value_bad : (i : List ℕ) → all_digits i ≡ false → int_value i ≡ err DecimalError.bad_char
unfolding int_value all_digits
int_value_bad [] h = cc
int_value_bad (b ∷ bs) h = rw h

add_frac_bad :
    (f : List ℕ) (w : ℕ) → all_digits f ≡ false → add_frac f w ≡ err DecimalError.bad_char
unfolding add_frac all_digits
add_frac_bad [] w h = cc
add_frac_bad (b ∷ bs) w h = rw h

steps_bad_frac :
    (r : Result ℕ DecimalError) (f : List ℕ) (v : ℕ)
    → all_digits f ≡ false
    → (r >>= λ v. ok_or (checked_mul v 1000000) DecimalError.overflow >>= add_frac f) ≢ ok v
steps_bad_frac (err x) f v h e = cc
steps_bad_frac (ok u) f v h e = ground (arith, add_frac_bad f (u * 1000000) h)

steps_digits :
    (i f : List ℕ) (v : ℕ) → steps i f ≡ ok v → (all_digits i ≡ true) × (all_digits f ≡ true)
steps_digits i f v e = (
  elim (Bool-cases (all_digits i)) [
    | inl h ↦ h
    | inr h ↦ cc (
        ap (λ r. r >>= λ v. ok_or (checked_mul v 1000000) DecimalError.overflow >>= add_frac f)
          (int_value_bad i h))
  ],
  elim (Bool-cases (all_digits f)) [
    | inl h ↦ h
    | inr h ↦ absurd (steps_bad_frac (int_value i) f v h e)
  ],
)

bounded_ok : (u v : ℕ) → bounded u ≡ ok v → (v ≡ u) × (v ≤ u64_max)
bounded_ok u v e = ground arith

guards_ok :
    (i f : List ℕ) (r : Result ℕ DecimalError) (v : ℕ)
    → (if is_empty i && is_empty f
        then err DecimalError.empty
        else if ltb 6 (length f)
        then err DecimalError.too_many_decimals
        else r)
      ≡ ok v
    → ((is_empty i && is_empty f) ≡ false) × (length f ≤ 6) × (r ≡ ok v)
guards_ok i f r v e = ground arith

-- Nothing else is accepted: a parsed value is the exact value of a decimal, the parts of the string
-- before and after its first dot, and fits a `u64`.
pub parse_micro_sound :
    (s : List ℕ) (v : ℕ)
    → parse_micro s ≡ ok v
    → let (i, f) = split_dot s in IsDecimal i f × (v ≡ micro_value i f) × (v ≤ u64_max)
parse_micro_sound s v e =
    let (i, f) = split_dot s in
    let guards = guards_ok i f (steps i f) v (sym (parse_micro_parts s i f refl) ∙ e) in
    let digits = steps_digits i f v guards.2 in
    let value = bounded_ok (micro_value i f) v (sym (steps_lem i f digits.0 digits.1) ∙ guards.2) in
    ((guards.0, digits.0, digits.1, guards.1), value.0, value.1)
