-- ===== src/Coordinator.antt =====
-- crates/app/src/coordinator.rs and positions.rs: the risk check of an opportunity, and the book of
-- positions. The hash maps are in the order of their keys.
pub mod Checks
pub mod Positions
mod Tests
use polybot.Common.{
  ℕ, ◌+◌, ◌≡◌, max, Option, none, some, List, [], ◌∷◌, lookup, put, unwrap_or, length, ltb, ◌==◌,
  if◌then◌else◌,
}
use polybot.Common.Int.{ℤ, pos, pos_part, neg_part, ◌+ℤ◌, ◌-ℤ◌}
use polybot.Num.{Usdc, Qty}
use polybot.Instrument.{MarketId, TokenId}
use polybot.Engine.{Action, LegFill, Opportunity}
use polybot.Risk.{BasketCheck}

-- `*map.entry(m).or_insert(0) += c`
abbrev pub add_at : List (ℕ × ℤ) → ℕ → ℤ → List (ℕ × ℤ)
add_at xs m c = put xs m (unwrap_or (lookup xs m) (pos 0) +ℤ c)

abbrev pub cash_magnitude : LegFill → ℕ
cash_magnitude f = pos_part f.cash + neg_part f.cash

-- The market of a buy, if it is known, is charged.
abbrev pub charge_fill : List (ℕ × ℤ) → Action → Option MarketId → ℕ → List (ℕ × ℤ)
charge_fill xs Action.buy (some m) c = add_at xs m (pos c)
charge_fill xs Action.buy none c = xs
charge_fill xs Action.sell o c = xs

unfoldable pub charge_fills : List (TokenId × MarketId) → List (ℕ × ℤ) → List LegFill → List (ℕ × ℤ)
charge_fills tm xs [] = xs
charge_fills tm xs (f ∷ fs) =
    charge_fills tm (charge_fill xs f.action (lookup tm f.token) (cash_magnitude f)) fs

unfoldable pub charge_splits : List (ℕ × ℤ) → List (MarketId × Qty) → List (ℕ × ℤ)
charge_splits xs [] = xs
charge_splits xs ((m, units) ∷ ss) = charge_splits (add_at xs m (pos units)) ss

unfoldable pub largest_leg : List LegFill → ℕ
largest_leg [] = 0
largest_leg (f ∷ fs) = max (cash_magnitude f) (largest_leg fs)

unfoldable pub sum_values : List (ℕ × ℤ) → ℤ
sum_values [] = pos 0
sum_values ((k, c) ∷ xs) = c +ℤ sum_values xs

unfoldable pub basket_check : Opportunity → List (TokenId × MarketId) → BasketCheck
basket_check opp tm =
    let per_market = charge_splits (charge_fills tm [] opp.fills) opp.splits in
    record {
      total_cost = sum_values per_market;
      max_leg_cost = pos (largest_leg opp.fills);
      legs = length opp.fills;
      per_market = per_market;
    }

pub record Pnl : Type 0 where
  pub cash : Usdc
  pub realized : Usdc
  pub unrealized : Usdc
  pub equity : Usdc

-- A position of the book is its quantity and its cost basis.
pub record PositionBook : Type 0 where
  pub held : List (TokenId × (ℕ × ℤ))
  pub cash : ℤ

abbrev pub held_at : List (TokenId × (ℕ × ℤ)) → TokenId → ℕ × ℤ
held_at xs t = unwrap_or (lookup xs t) (0, pos 0)

abbrev pub add_held : List (TokenId × (ℕ × ℤ)) → TokenId → ℕ → ℤ → List (TokenId × (ℕ × ℤ))
add_held xs t q c = put xs t ((held_at xs t).0 + q, (held_at xs t).1 +ℤ c)

abbrev pub add_delta : List (ℕ × ℤ) → Option MarketId → ℤ → List (ℕ × ℤ)
add_delta ds none c = ds
add_delta ds (some m) c = add_at ds m c

-- The loop of `PositionBook::apply`.
unfoldable pub apply_loop :
    List (TokenId × MarketId)
    → List (TokenId × (ℕ × ℤ))
    → List (ℕ × ℤ)
    → List (TokenId × (Qty × Usdc))
    → List (TokenId × (ℕ × ℤ)) × List (ℕ × ℤ)
apply_loop tm held deltas [] = (held, deltas)
apply_loop tm held deltas ((t, (q, c)) ∷ ps) =
    apply_loop tm (add_held held t q c) (add_delta deltas (lookup tm t) c) ps

-- `PositionBook::apply`: the new book, and the exposure deltas by market.
unfoldable pub apply_report :
    PositionBook
    → List (TokenId × (Qty × Usdc))
    → Usdc
    → List (TokenId × MarketId)
    → PositionBook × List (ℕ × ℤ)
apply_report b positions cash_delta tm =
    let r = apply_loop tm b.held [] positions in
    (record { held = r.0; cash = b.cash +ℤ cash_delta }, r.1)

-- `PositionBook::holdings`
unfoldable pub holdings : List (TokenId × (ℕ × ℤ)) → List (TokenId × (Qty × Usdc))
holdings [] = []
holdings ((t, (q, c)) ∷ xs) = if ltb 0 q then (t, (q, c)) ∷ holdings xs else holdings xs

-- The sums of `PositionBook::pnl`: the basis and the value at the marks.
unfoldable pub sum_basis : List (TokenId × (ℕ × ℤ)) → ℤ
sum_basis [] = pos 0
sum_basis ((t, (q, c)) ∷ xs) = (if q == 0 then pos 0 else c) +ℤ sum_basis xs

unfoldable pub sum_marks : List (TokenId × ℤ) → List (TokenId × (ℕ × ℤ)) → ℤ
sum_marks marks [] = pos 0
sum_marks marks ((t, (q, c)) ∷ xs) =
    (if q == 0 then pos 0 else unwrap_or (lookup marks t) (pos 0)) +ℤ sum_marks marks xs

unfoldable pub pnl : PositionBook → List (TokenId × ℤ) → Pnl
pnl b marks =
    let equity = b.cash +ℤ sum_marks marks b.held in
    let unrealized = sum_marks marks b.held -ℤ sum_basis b.held in
    record {
      cash = b.cash;
      realized = equity -ℤ unrealized;
      unrealized = unrealized;
      equity = equity;
    }
