-- ===== src/Num.antt =====
-- crates/core/src/num.rs and fees.rs: ticks, µ-unit cash arithmetic and the venue fee.
use polybot.Common.{
  ℕ, ◌+◌, ◌-◌, ◌*◌, ◌/◌, min, ◌&&◌, Option, none, some, ltb, leb, if◌then◌else◌, Result, ok, err,
}
pub mod Rounding
pub mod Fee
mod Tests
use polybot.Common.Int.{ℤ, pos, negsuc, pos_part, leb_ℤ, min_ℤ, max_ℤ, ◌*ℤ◌, div_floor}

pub data TickSize : Type 0 where
  cent milli : TickSize

-- The newtypes are their numbers; the range of `Px` is stated where it is used.
abbrev pub Px : Type 0
Px = ℕ

abbrev pub Qty : Type 0
Qty = ℕ

abbrev pub Usdc : Type 0
Usdc = ℤ

abbrev pub Bps : Type 0
Bps = ℤ

pub data NumError : Type 0 where
  out_of_range : NumError

abbrev pub one_share_micro : ℕ
one_share_micro = 1000000

abbrev pub one_usdc_micro : ℕ
one_usdc_micro = 1000000

unfoldable pub levels : TickSize → ℕ
levels TickSize.cent = 100
levels TickSize.milli = 1000

unfoldable pub unit_microusdc : TickSize → ℕ
unit_microusdc TickSize.cent = 10000
unit_microusdc TickSize.milli = 1000

-- `Px::new`
unfoldable pub px_new : ℕ → TickSize → Result Px NumError
px_new tick ts = if leb 1 tick && ltb tick (levels ts) then ok tick else err NumError.out_of_range

-- `Px::microusdc`
unfoldable pub microusdc : Px → TickSize → ℕ
microusdc px ts = px * unit_microusdc ts

-- `div_ceil_i128`, at the non-negative numerators of its callers.
unfoldable pub div_ceil : ℕ → ℕ → ℕ
div_ceil n d = (n + d - 1) / d

-- The signed results of the source are never negative here; callers lift them by `pos`.
unfoldable pub buy_cost : ℕ → Qty → ℕ
unfolding div_ceil
buy_cost px_micro qty = div_ceil (px_micro * qty) one_share_micro

unfoldable pub sell_proceeds : ℕ → Qty → ℕ
sell_proceeds px_micro qty = px_micro * qty / one_share_micro

abbrev pub i32_min : ℤ
i32_min = negsuc 2147483647

abbrev pub i32_max : ℤ
i32_max = pos 2147483647

-- `clamp` to the range of an `i32`.
unfoldable pub clamp_i32 : ℤ → ℤ
clamp_i32 x = min_ℤ (max_ℤ x i32_min) i32_max

unfoldable pub edge_bps : Usdc → Usdc → Option Bps
unfolding clamp_i32
edge_bps net basis =
    if leb_ℤ basis (pos 0)
    then none
    else some (clamp_i32 (div_floor (net *ℤ pos 10000) (pos_part basis)))

-- `fee_microusdc`; `rate.0.max(0)` is the non-negative part of the rate.
unfoldable pub fee_microusdc : Bps → ℕ → Qty → ℕ
fee_microusdc rate px_micro qty =
    let base = min px_micro (one_usdc_micro - px_micro) in
    let num = pos_part rate * base * qty in
    (num + 10000 * one_usdc_micro - 1) / (10000 * one_usdc_micro)
