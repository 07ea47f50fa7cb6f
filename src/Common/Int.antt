-- ===== src/Common/Int.antt =====
-- Signed integers over the native numbers, under the library's names (its ℤ stands on the unary ℕ).
-- Sums and orders go through the two parts of an integer, which are numbers that `omega` reads.
use Prim.Native.Nat.{ℕ, suc, ◌+◌, ◌-◌, ◌*◌, ◌/◌, ◌≤◌, ◌<◌}
use mathlib.Core.Path.{◌≡◌, ap, subst}
use native.Mathlib.Nat.{div-add-mod, mod-lt}
use mathlib.Core.Bool.{Bool}
use native.Mathlib.Omega.{arith}
use polybot.Common.Tests.{ltb, leb, if◌then◌else◌}

-- `negsuc n` is -(n + 1).
pub data ℤ : Type 0 where
  pos : ℕ → ℤ
  negsuc : ℕ → ℤ

abbrev pub pos_part : ℤ → ℕ
pos_part (pos n) = n
pos_part (negsuc n) = 0

abbrev pub neg_part : ℤ → ℕ
neg_part (pos n) = 0
neg_part (negsuc n) = suc n

-- a - b, as an integer.
abbrev pub sub_ℕ : ℕ → ℕ → ℤ
sub_ℕ a b = if leb b a then pos (a - b) else negsuc (b - a - 1)

infixl 65 ◌+ℤ◌ ◌-ℤ◌
infixl 70 ◌*ℤ◌
infix 50 ◌≤ℤ◌ ◌<ℤ◌
unfoldable pub ◌+ℤ◌ : ℤ → ℤ → ℤ
a +ℤ b = sub_ℕ (pos_part a + pos_part b) (neg_part a + neg_part b)

unfoldable pub ◌-ℤ◌ : ℤ → ℤ → ℤ
a -ℤ b = sub_ℕ (pos_part a + neg_part b) (neg_part a + pos_part b)

unfoldable pub ◌*ℤ◌ : ℤ → ℤ → ℤ
a *ℤ b =
    sub_ℕ (pos_part a * pos_part b + neg_part a * neg_part b)
      (pos_part a * neg_part b + neg_part a * pos_part b)

abbrev pub ◌≤ℤ◌ : ℤ → ℤ → Type 0
a ≤ℤ b = pos_part a + neg_part b ≤ pos_part b + neg_part a

abbrev pub ◌<ℤ◌ : ℤ → ℤ → Type 0
a <ℤ b = pos_part a + neg_part b < pos_part b + neg_part a

abbrev pub ltb_ℤ : ℤ → ℤ → Bool
ltb_ℤ a b = ltb (pos_part a + neg_part b) (pos_part b + neg_part a)

abbrev pub leb_ℤ : ℤ → ℤ → Bool
leb_ℤ a b = leb (pos_part a + neg_part b) (pos_part b + neg_part a)

abbrev pub min_ℤ : ℤ → ℤ → ℤ
min_ℤ a b = if leb_ℤ a b then a else b

abbrev pub max_ℤ : ℤ → ℤ → ℤ
max_ℤ a b = if leb_ℤ a b then b else a

-- One lemma for each operation lets `omega` work with the operations shut, at any depth.
pub +ℤ_parts :
    (a b : ℤ)
    → pos_part (a +ℤ b) + neg_part a + neg_part b ≡ neg_part (a +ℤ b) + pos_part a + pos_part b
unfolding ◌+ℤ◌
+ℤ_parts a b = ground arith

pub -ℤ_parts :
    (a b : ℤ)
    → pos_part (a -ℤ b) + neg_part a + pos_part b ≡ neg_part (a -ℤ b) + pos_part a + neg_part b
unfolding ◌-ℤ◌
-ℤ_parts a b = ground arith

pub eq_of_parts : (a b : ℤ) → pos_part a + neg_part b ≡ pos_part b + neg_part a → a ≡ b
eq_of_parts a b h = ground arith

pub ruleset int_laws = (arith, +ℤ_parts, -ℤ_parts, eq_of_parts)

-- `div_euclid` by a positive divisor: the floor of the quotient.
unfoldable pub div_floor : ℤ → ℕ → ℤ
div_floor (pos n) d = pos (n / d)
div_floor (negsuc n) d = negsuc (n / d)

pub pos_part_mono : (a b : ℤ) → a ≤ℤ b → pos_part a ≤ pos_part b
pos_part_mono a b h = ground arith

-- `/` of a signed integer by a positive divisor: rounded toward zero.
unfoldable pub div_trunc : ℤ → ℕ → ℤ
div_trunc (pos n) d = pos (n / d)
div_trunc (negsuc n) d = sub_ℕ 0 (suc n / d)

-- `/` of two signed integers.
unfoldable pub quot : ℤ → ℤ → ℤ
quot a (pos d) = div_trunc a d
quot a (negsuc d) = pos 0 -ℤ div_trunc a (suc d)

-- A product with a number, part by part.
pub times_pos_parts :
    (a : ℤ) (k : ℕ)
    → (pos_part (a *ℤ pos k) ≡ pos_part a * k) × (neg_part (a *ℤ pos k) ≡ neg_part a * k)
unfolding ◌*ℤ◌
times_pos_parts (pos n) k = ground arith
times_pos_parts (negsuc n) k = ground arith

pub times_neg_parts :
    (a : ℤ) (k : ℕ)
    → (pos_part (a *ℤ negsuc k) ≡ neg_part a * suc k)
      × (neg_part (a *ℤ negsuc k) ≡ pos_part a * suc k)
unfolding ◌*ℤ◌
times_neg_parts (pos n) k = ground arith
times_neg_parts (negsuc n) k = ground arith

-- They differ by less than `d`.
abbrev pub Near : ℤ → ℤ → ℕ → Type 0
Near a b d = (a -ℤ b <ℤ pos d) × (b -ℤ a <ℤ pos d)

-- A quotient, whichever way it is rounded, times its divisor.
negated_parts : (q : ℕ) → (pos_part (sub_ℕ 0 q) ≡ 0) × (neg_part (sub_ℕ 0 q) ≡ q)
negated_parts q = ground arith

pub div_trunc-Near : (a : ℤ) (d : ℕ) → 0 < d → Near (div_trunc a d *ℤ pos d) a d
unfolding div_trunc
div_trunc-Near (pos n) d h =
    let t = times_pos_parts (pos (n / d)) d in
    let m = div-add-mod n d in
    let l = mod-lt n h in (omega (int_laws, t, m, l), omega (int_laws, t, m, l))
div_trunc-Near (negsuc n) d h =
    let t = times_pos_parts (sub_ℕ 0 (suc n / d)) d in
    let m = div-add-mod (suc n) d in
    let l = mod-lt (suc n) h in
    let z = negated_parts (suc n / d) in
    let p = ap (λ u. u * d) z.0 in
    let q = ap (λ u. u * d) z.1 in
    (omega (int_laws, t, m, l, p, q), omega (int_laws, t, m, l, p, q))

pub quot-Near :
    (a b : ℤ) → 0 < pos_part b + neg_part b → Near (quot a b *ℤ b) a (pos_part b + neg_part b)
unfolding quot
quot-Near a (pos d) h = subst (Near _ a) (omega arith) (div_trunc-Near a d (omega (arith, h)))
quot-Near a (negsuc d) h =
    let n = div_trunc-Near a (suc d) (omega arith) in
    let t = times_pos_parts (div_trunc a (suc d)) (suc d) in
    let u = times_neg_parts (pos 0 -ℤ div_trunc a (suc d)) d in
    let m = ap (λ x. x * suc d) (-ℤ_parts (pos 0) (div_trunc a (suc d))) in
    (omega (int_laws, n, t, u, m), omega (int_laws, n, t, u, m))
