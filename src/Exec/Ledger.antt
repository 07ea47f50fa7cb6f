-- ===== src/Exec/Ledger.antt =====
-- crates/execution/src/basket.rs: the in-memory tape of one basket. The hash map is an association list in
-- the order of its tokens. A cost divided is that of a positive holding; Rust's division rounds toward zero.
use polybot.Common.{
  ℕ, ◌+◌, ◌-◌, min, Option, none, some, List, [], ◌∷◌, ltb, ◌==◌, if◌then◌else◌, lookup, put,
}
use polybot.Common.Int.{ℤ, pos, ◌+ℤ◌, ◌-ℤ◌, ◌*ℤ◌, div_trunc}
use polybot.Num.{Qty, Usdc}
use polybot.Instrument.{TokenId}

-- The held µshares of a token and the cost basis that remains of them.
abbrev pub Holding : Type 0
Holding = Qty × ℤ

pub record Ledger : Type 0 where
  pub cash : ℤ
  pub hold : List (TokenId × Holding)

-- `Ledger::default`
abbrev pub ledger_new : Ledger
ledger_new = record { cash = pos 0; hold = [] }

unfoldable pub ceil_mul_div : ℤ → ℕ → ℕ → ℤ
ceil_mul_div a b c = div_trunc (a *ℤ pos b +ℤ pos (c - 1)) c

abbrev pub holding_or : Option Holding → Holding
holding_or none = (0, pos 0)
holding_or (some h) = h

-- `entry(token).or_insert((0, 0))` and the two additions.
unfoldable pub add_holding : List (TokenId × Holding) → TokenId → Qty → ℤ → List (TokenId × Holding)
add_holding hs token qty cost =
    let h = holding_or (lookup hs token) in put hs token (h.0 + qty, h.1 +ℤ cost)

unfoldable pub consumed : Holding → Qty → ℤ
consumed (held, cost) take = if held == 0 then pos 0 else ceil_mul_div cost take held

abbrev pub reduced : Holding → Qty → Holding
reduced h qty = let take = min qty h.0 in (h.0 - take, h.1 -ℤ consumed h take)

-- `get_mut(&token)`: an unknown token is left out.
abbrev pub reduce_found :
    List (TokenId × Holding) → TokenId → Qty → Option Holding → List (TokenId × Holding)
reduce_found hs token qty none = hs
reduce_found hs token qty (some h) = put hs token (reduced h qty)

unfoldable pub reduce_holding : List (TokenId × Holding) → TokenId → Qty → List (TokenId × Holding)
reduce_holding hs token qty = reduce_found hs token qty (lookup hs token)

unfoldable pub buy : Ledger → TokenId → Qty → Usdc → Ledger
buy l token qty cash = record {
  cash = l.cash +ℤ cash;
  hold = add_holding l.hold token qty (pos 0 -ℤ cash);
}

unfoldable pub sell : Ledger → TokenId → Qty → Usdc → Ledger
sell l token qty cash = record { cash = l.cash +ℤ cash; hold = reduce_holding l.hold token qty }

-- The yes token bears the larger half of the cost.
unfoldable pub split : Ledger → TokenId → TokenId → Qty → Usdc → Ledger
split l yes_token no_token units cash =
    let total = pos 0 -ℤ cash in
    let yes_cost = div_trunc (total +ℤ pos 1) 2 in
    record {
      cash = l.cash +ℤ cash;
      hold =
          add_holding (add_holding l.hold yes_token units yes_cost) no_token units
            (total -ℤ yes_cost);
    }

unfoldable pub merge : Ledger → TokenId → TokenId → Qty → Usdc → Ledger
merge l yes_token no_token units cash = record {
  cash = l.cash +ℤ cash;
  hold = reduce_holding (reduce_holding l.hold yes_token units) no_token units;
}

unfoldable pub held : Ledger → TokenId → ℕ
held l token = (holding_or (lookup l.hold token)).0

-- The non-empty holdings, by token.
unfoldable pub positions_of : List (TokenId × Holding) → List (TokenId × Holding)
positions_of [] = []
positions_of ((t, h) ∷ hs) = let rest = positions_of hs in if ltb 0 h.0 then (t, h) ∷ rest else rest

abbrev pub positions : Ledger → List (TokenId × Holding)
positions l = positions_of l.hold
