-- ===== src/Exec/Repair.antt =====
-- crates/execution/src/basket.rs (`repair_and_unwind`): the pricing of the repair orders, at a net that is not
-- negative, as that of an opportunity is. The u16 sum of a buy's tick is checked: a panic is a case of its
-- own.
pub mod Budget
pub mod Panics
use polybot.Common.{
  ℕ, ◌+◌, ◌-◌, ◌*◌, ◌/◌, min, max, Bool, ◌&&◌, ◌||◌, Option, none, some, List, [], ◌∷◌, ltb, leb,
  ◌==◌, if◌then◌else◌, Result, ok, err,
}
use polybot.Common.Int.{pos_part, neg_part}
use polybot.Num.{TickSize, Px, Qty, NumError, levels, unit_microusdc, px_new}
use polybot.Engine.{Action, LegFill}

abbrev pub u16_max : ℕ
u16_max = 65535

-- `ceil_mul_div` of the magnitude of the leg's cash, for what is not filled.
unfoldable pub weight_of : LegFill → Qty → ℕ
weight_of l filled =
    let rem = l.qty - filled in
    if ltb 0 rem && ltb 0 l.qty
    then ((pos_part l.cash + neg_part l.cash) * rem + l.qty - 1) / l.qty
    else 0

unfoldable pub total_weight : List (LegFill × Qty) → ℕ
total_weight [] = 0
total_weight ((l, filled) ∷ ls) = weight_of l filled + total_weight ls

-- The ticks that a leg's share of the net buys.
unfoldable pub bump_of : ℕ → ℕ → LegFill → Qty → ℕ
bump_of net total l filled =
    let slack = net * weight_of l filled / total in
    let per_share = slack * 1000000 / (l.qty - filled) in
    min (per_share / unit_microusdc l.ts) u16_max

-- `base + bump`, in 16 bits.
abbrev pub checked_sum : Px → ℕ → Option ℕ
checked_sum base bump = if leb (base + bump) u16_max then some (base + bump) else none

abbrev pub clamp_top : ℕ → Option ℕ → Option ℕ
clamp_top top none = none
clamp_top top (some t) = some (min t top)

abbrev pub new_tick : LegFill → ℕ → Option ℕ
new_tick l bump = elim l.action [
  | Action.buy ↦ clamp_top (levels l.ts - 1) (checked_sum l.limit_px bump)
  | Action.sell ↦ some (max (l.limit_px - bump) 1)
]

-- What becomes of a leg in the round of repairs.
pub data RepairStep : Type 0 where
  skipped panicked : RepairStep
  ordered : Px → Qty → RepairStep

abbrev pub priced : Qty → Result Px NumError → RepairStep
priced rem (ok px) = RepairStep.ordered px rem
priced rem (err e) = RepairStep.skipped

abbrev pub at_tick : TickSize → Qty → Option ℕ → RepairStep
at_tick ts rem none = RepairStep.panicked
at_tick ts rem (some t) = priced rem (px_new t ts)

unfoldable pub repair_leg : ℕ → ℕ → LegFill → Qty → RepairStep
repair_leg net total l filled =
    if (l.qty - filled) == 0 || weight_of l filled == 0
    then RepairStep.skipped
    else if bump_of net total l filled == 0
    then RepairStep.skipped
    else at_tick l.ts (l.qty - filled) (new_tick l (bump_of net total l filled))
