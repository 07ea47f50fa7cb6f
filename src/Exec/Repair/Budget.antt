-- ===== src/Exec/Repair/Budget.antt =====
-- What the repair orders of a basket concede.
use native.Mathlib.Nat.{mul-le-mul_right, div-mul-le_self, le_of_mul-le-mul_right, le_trans}
use polybot.Common.{
  ℕ, ◌+◌, ◌-◌, ◌*◌, ◌/◌, ◌≤◌, ◌<◌, min, max, Bool, true, false, ◌&&◌, ◌||◌, none, some, List, [],
  ◌∷◌, arith, inl, inr, Bool-cases, ltb, leb, ◌==◌, if◌then◌else◌,
}
use polybot.Num.{Px, Qty, levels, unit_microusdc, px_new}
use polybot.Book.Ranks.{IsInterior}
use polybot.Engine.{Action, LegFill}
use polybot.Exec.Repair.{
  u16_max, weight_of, total_weight, bump_of, checked_sum, clamp_top, new_tick, RepairStep, priced,
  at_tick, repair_leg,
}

-- The ticks between two prices.
abbrev pub shift : Px → Px → ℕ
shift a b = (a - b) + (b - a)

-- What a repair order gives up against the leg's own limit, in millionths of a µUSDC.
abbrev pub concession : LegFill → RepairStep → ℕ
concession l RepairStep.skipped = 0
concession l RepairStep.panicked = 0
concession l (RepairStep.ordered px rem) = shift l.limit_px px * unit_microusdc l.ts * rem

unfoldable pub total_concession : ℕ → ℕ → List (LegFill × Qty) → ℕ
total_concession net total [] = 0
total_concession net total ((l, filled) ∷ ls) =
    concession l (repair_leg net total l filled) + total_concession net total ls

-- The ticks of a leg's bump are paid for by its share of the net.
bump-budget :
    (net total : ℕ) (l : LegFill) (filled : Qty)
    → bump_of net total l filled * unit_microusdc l.ts * (l.qty - filled) * total
      ≤ net * weight_of l filled * 1000000
unfolding bump_of
bump-budget net total l filled =
    four (min (per_share / unit) u16_max) unit rem total per_share slack (net * weight_of l filled)
      (le_trans (mul-le-mul_right unit (omega arith)) (div-mul-le_self per_share unit))
      (div-mul-le_self (slack * 1000000) rem) (div-mul-le_self (net * weight_of l filled) total)
  where
    unit : ℕ
    unit = unit_microusdc l.ts

    rem : ℕ
    rem = l.qty - filled

    slack : ℕ
    slack = net * weight_of l filled / total

    per_share : ℕ
    per_share = slack * 1000000 / rem

    four :
        (b u r t p s n : ℕ)
        → b * u ≤ p
        → p * r ≤ s * 1000000
        → s * t ≤ n
        → b * u * r * t ≤ n * 1000000
    four b u r t p s n h k g =
        le_trans (mul-le-mul_right t (le_trans (mul-le-mul_right r h) k))
          (omega (arith, mul-le-mul_right 1000000 g))

concession-priced :
    (l : LegFill) (rem b t : ℕ)
    → shift l.limit_px t ≤ b
    → concession l (priced rem (px_new t l.ts)) ≤ b * unit_microusdc l.ts * rem
unfolding px_new
concession-priced l rem b t h = elim (Bool-cases (leb 1 t && ltb t (levels l.ts))) [
  | inl e ↦ rw e (mul-le-mul_right rem (mul-le-mul_right (unit_microusdc l.ts) h))
  | inr e ↦ rw e (omega arith)
]

tick_concession :
    (l : LegFill) (rem b : ℕ)
    → IsInterior l.ts l.limit_px
    → concession l (at_tick l.ts rem (new_tick l b)) ≤ b * unit_microusdc l.ts * rem
tick_concession l rem b h = by_action l.action
  where
    by_sum :
        (c : Bool)
        → concession l (
            at_tick l.ts rem
              (clamp_top (levels l.ts - 1) (if c then some (l.limit_px + b) else none)))
          ≤ b * unit_microusdc l.ts * rem
    by_sum true = concession-priced l rem b (min (l.limit_px + b) (levels l.ts - 1)) (omega arith)
    by_sum false = omega arith

    by_action :
        (a : Action)
        → concession l (
            at_tick l.ts rem (elim a [
              | Action.buy ↦ clamp_top (levels l.ts - 1) (checked_sum l.limit_px b)
              | Action.sell ↦ some (max (l.limit_px - b) 1)
            ]))
          ≤ b * unit_microusdc l.ts * rem
    by_action Action.buy = by_sum (leb (l.limit_px + b) u16_max)
    by_action Action.sell = concession-priced l rem b (max (l.limit_px - b) 1) (omega arith)

concession-repair_leg :
    (net total : ℕ) (l : LegFill) (filled : Qty)
    → IsInterior l.ts l.limit_px
    → concession l (repair_leg net total l filled)
      ≤ bump_of net total l filled * unit_microusdc l.ts * (l.qty - filled)
unfolding repair_leg
concession-repair_leg net total l filled h =
    chosen ((l.qty - filled) == 0 || weight_of l filled == 0) (bump_of net total l filled == 0)
  where
    chosen :
        (a b : Bool)
        → concession l (
            if a
            then RepairStep.skipped
            else if b
            then RepairStep.skipped
            else at_tick l.ts (l.qty - filled) (new_tick l (bump_of net total l filled)))
          ≤ bump_of net total l filled * unit_microusdc l.ts * (l.qty - filled)
    chosen true b = omega arith
    chosen false true = omega arith
    chosen false false = tick_concession l (l.qty - filled) (bump_of net total l filled) h

-- The limits of the legs are prices.
abbrev pub AllPriced : List (LegFill × Qty) → Type 0
AllPriced [] = Unit {0}
AllPriced ((l, filled) ∷ ls) = IsInterior l.ts l.limit_px × AllPriced ls

concessions-budget :
    (net total : ℕ) (ls : List (LegFill × Qty))
    → AllPriced ls
    → total_concession net total ls * total ≤ net * 1000000 * total_weight ls
unfolding total_concession total_weight
concessions-budget net total [] h = omega arith
concessions-budget net total ((l, filled) ∷ ls) (h, k) = omega (
  arith,
  mul-le-mul_right total (concession-repair_leg net total l filled h),
  bump-budget net total l filled,
  concessions-budget net total ls k,
)

-- Where every limit of a leg is a price and some leg has a weight, the repair orders together concede, over
-- the limits of their legs, at most the net of the opportunity.
pub repairs_within_net :
    (net : ℕ) (ls : List (LegFill × Qty))
    → AllPriced ls
    → 0 < total_weight ls
    → total_concession net (total_weight ls) ls ≤ net * 1000000
repairs_within_net net ls h pos =
    le_of_mul-le-mul_right (concessions-budget net (total_weight ls) ls h) pos
