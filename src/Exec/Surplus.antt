-- ===== src/Exec/Surplus.antt =====
-- crates/execution/src/basket.rs (`surpluses`): the shares of each leg beyond the least filled fraction. The
-- two slices are one list of pairs, the intended quantity first.
pub mod Hedged
use polybot.Common.{ℕ, ◌-◌, ◌*◌, ◌/◌, Option, none, some, List, [], ◌∷◌, ltb, ◌==◌, if◌then◌else◌}
use polybot.Num.{Qty}

-- The intended and the filled quantity of a leg.
abbrev pub Leg : Type 0
Leg = Qty × Qty

-- `filled_j / intended_j` is less, by cross-multiplication.
abbrev pub lesser : Option Leg → Leg → Leg
lesser none x = x
lesser (some (ib, fb)) (ij, fj) = if ltb (fj * ib) (fb * ij) then (ij, fj) else (ib, fb)

-- The loop for `best`; a leg with nothing intended is skipped.
unfoldable pub best_leg : Option Leg → List Leg → Option Leg
best_leg b [] = b
best_leg b ((i, f) ∷ ls) = if i == 0 then best_leg b ls else best_leg (some (lesser b (i, f))) ls

-- The filled quantity beyond `floor(i * fj / ij)`.
abbrev pub surplus_of : Leg → Leg → Qty
surplus_of (ij, fj) (i, f) = f - (i * fj / ij)

unfoldable pub surplus_each : Leg → List Leg → List Qty
surplus_each b [] = []
surplus_each b (l ∷ ls) = surplus_of b l ∷ surplus_each b ls

unfoldable pub no_surplus : List Leg → List Qty
no_surplus [] = []
no_surplus (l ∷ ls) = 0 ∷ no_surplus ls

unfoldable pub surpluses : List Leg → List Qty
surpluses ls = elim (best_leg none ls) [
  | none ↦ no_surplus ls
  | some (ij, fj) ↦ if ij == 0 then no_surplus ls else surplus_each (ij, fj) ls
]
