-- ===== src/Num/Fee.antt =====
-- The venue fee of crates/core/src/fees.rs.
use native.Mathlib.Nat.{mul-le-mul}
use polybot.Common.{ℕ, ◌+◌, ◌-◌, ◌*◌, ◌≤◌, ◌<◌, ◌≡◌, arith, min}
use polybot.Common.Int.{pos, pos_part, pos_part_mono, ◌≤ℤ◌}
use polybot.Num.{Bps, Qty, fee_microusdc, buy_cost}

-- The fee is that of the complementary price.
pub fee_symmetric :
    (rate : Bps) (px : ℕ) (q : Qty)
    → px ≤ 1000000
    → fee_microusdc rate px q ≡ fee_microusdc rate (1000000 - px) q
unfolding fee_microusdc
fee_symmetric rate px q h = rw (base_symmetric)
  where
    base_symmetric : min px (1000000 - px) ≡ min (1000000 - px) (1000000 - (1000000 - px))
    base_symmetric = omega arith

-- `rate · min(p, 1 - p) · size`, over 10¹⁰.
abbrev pub scaled_fee : Bps → ℕ → Qty → ℕ
scaled_fee rate px q = pos_part rate * min px (1000000 - px) * q

-- The fee is the least whole µUSDC that is at least rate·min(p, 1 - p)·size, where a negative rate
-- counts as zero.
pub fee_rounds_up :
    (rate : Bps) (px : ℕ) (q : Qty)
    → (scaled_fee rate px q ≤ fee_microusdc rate px q * 10000000000)
      × (fee_microusdc rate px q * 10000000000 < scaled_fee rate px q + 10000000000)
unfolding fee_microusdc
fee_rounds_up rate px q = omega arith

scaled_fee_mono :
    (r s : Bps) (px : ℕ) (q t : Qty) → r ≤ℤ s → q ≤ t → scaled_fee r px q ≤ scaled_fee s px t
scaled_fee_mono r s px q t h k = mul-le-mul (mul-le-mul (pos_part_mono r s h) (omega arith)) k

-- The fee grows with the rate and with the size; splitting a fill never lowers the total fee, and
-- raises it by one µUSDC at most.
pub fee_mono_split :
    (r s : Bps) (px : ℕ) (q t : Qty)
    → r ≤ℤ s
    → (fee_microusdc r px q ≤ fee_microusdc s px (q + t))
      × (fee_microusdc r px (q + t) ≤ fee_microusdc r px q + fee_microusdc r px t)
      × (fee_microusdc r px q + fee_microusdc r px t ≤ fee_microusdc r px (q + t) + 1)
unfolding fee_microusdc
fee_mono_split r s px q t h =
    let m : scaled_fee r px q ≤ scaled_fee s px (q + t) =
      scaled_fee_mono r s px q (q + t) h (omega arith) in
    (omega arith, omega arith, omega arith)

-- At a rate of 100% or less the fee is at most the cost of the shares, and at most that of as many
-- shares of the opposite outcome.
pub fee-le-buy_cost :
    (rate : Bps) (px : ℕ) (q : Qty)
    → rate ≤ℤ pos 10000
    → px ≤ 1000000
    → (fee_microusdc rate px q ≤ buy_cost px q)
      × (fee_microusdc rate px q ≤ buy_cost (1000000 - px) q)
unfolding fee_microusdc buy_cost
fee-le-buy_cost rate px q h k =
    let m : scaled_fee rate px q ≤ 10000 * px * q =
      mul-le-mul (mul-le-mul (pos_part_mono rate (pos 10000) h) (omega arith)) (omega arith) in
    let m' : scaled_fee rate px q ≤ 10000 * (1000000 - px) * q =
      mul-le-mul (mul-le-mul (pos_part_mono rate (pos 10000) h) (omega arith)) (omega arith) in
    (omega arith, omega arith)
