-- ===== src/Exec/Repair/Panics.antt =====
-- Where the sum of a repair's tick does not fit 16 bits.
use native.Mathlib.Nat.{mul-div_cancel, le-div_iff_mul-le}
use polybot.Common.{
  ℕ, ◌+◌, ◌-◌, ◌*◌, ◌≤◌, ◌<◌, ◌≡◌, ap, false, ◌||◌, Option, none, some, arith, max, ◌==◌,
  if◌then◌else◌,
}
use polybot.Num.{TickSize, Qty, levels, unit_microusdc}
use polybot.Book.Ranks.{IsInterior}
use polybot.Engine.{Action, LegFill}
use polybot.Exec.Repair.{
  u16_max, weight_of, bump_of, checked_sum, clamp_top, new_tick, RepairStep, at_tick, repair_leg,
}

unit_pos : (ts : TickSize) → 0 < unit_microusdc ts
unfolding unit_microusdc
unit_pos TickSize.cent = omega arith
unit_pos TickSize.milli = omega arith

levels_le : (ts : TickSize) → levels ts ≤ 1000
unfolding levels
levels_le TickSize.cent = omega arith
levels_le TickSize.milli = omega arith

-- If one leg has all the weight, its bump takes up the whole net.
bump_high :
    (net k : ℕ) (l : LegFill) (filled : Qty)
    → 0 < l.qty - filled
    → 0 < weight_of l filled
    → k ≤ u16_max
    → k * unit_microusdc l.ts * (l.qty - filled) ≤ net * 1000000
    → k ≤ bump_of net (weight_of l filled) l filled
unfolding bump_of
bump_high net k l filled rem w small h = rw (mul-div_cancel net w) (
    omega (
      arith,
      (le-div_iff_mul-le (unit_pos l.ts)).1
          ((le-div_iff_mul-le {x = k * unit_microusdc l.ts} {y = net * 1000000} rem).1 h),
    ))

over_sum : (base b : ℕ) → u16_max < base + b → checked_sum base b ≡ none
over_sum base b h = ground arith

abbrev tick_by : LegFill → ℕ → Action → Option ℕ
tick_by l b Action.buy = clamp_top (levels l.ts - 1) (checked_sum l.limit_px b)
tick_by l b Action.sell = some (max (l.limit_px - b) 1)

buy_tick :
    (l : LegFill) (a : Action) (b : ℕ)
    → a ≡ Action.buy
    → u16_max < l.limit_px + b
    → tick_by l b a ≡ none
buy_tick l Action.buy b e h = ap (clamp_top (levels l.ts - 1)) (over_sum l.limit_px b h)
buy_tick l Action.sell b e h = cc e

reached :
    (l : LegFill) (rem b w : ℕ)
    → (rem == 0) ≡ false
    → (w == 0) ≡ false
    → (b == 0) ≡ false
    → new_tick l b ≡ none
    → (if rem == 0 || w == 0
        then RepairStep.skipped
        else if b == 0
        then RepairStep.skipped
        else at_tick l.ts rem (new_tick l b))
      ≡ RepairStep.panicked
reached l rem b w e f g h = rw (e, f, g) (ap (at_tick l.ts rem) h)

pos_test : (n : ℕ) → 0 < n → (n == 0) ≡ false
pos_test n h = ground arith

-- A buy leg at a price, which alone has a weight, whose quantity left is so small against the net that the
-- net pays for a bump to tick 65536 or beyond: the sum of its tick overflows 16 bits, and the repair
-- panics instead of placing an order at the top tick.
pub repair_leg-panicked :
    (net : ℕ) (l : LegFill) (filled : Qty)
    → l.action ≡ Action.buy
    → IsInterior l.ts l.limit_px
    → 0 < l.qty - filled
    → 0 < weight_of l filled
    → (65536 - l.limit_px) * unit_microusdc l.ts * (l.qty - filled) ≤ net * 1000000
    → repair_leg net (weight_of l filled) l filled ≡ RepairStep.panicked
unfolding repair_leg
repair_leg-panicked net l filled buys inside rem w h =
    let high = bump_high net (65536 - l.limit_px) l filled rem w (omega (arith, inside)) h in
    reached l (l.qty - filled) (bump_of net (weight_of l filled) l filled) (weight_of l filled)
      (pos_test _ rem) (pos_test _ w) (pos_test _ (omega (arith, high, inside, levels_le l.ts)))
      (buy_tick l l.action _ buys (omega (arith, high)))
