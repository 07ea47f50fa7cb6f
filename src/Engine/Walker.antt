-- ===== src/Engine/Walker.antt =====
-- crates/engine/src/walker.rs: exact sizing of a basket against the depth of its legs.
-- `basis_per_share_scaled` and `basis_used` are sums of non-negative numbers, and the `i128`s are
-- unbounded. The iterator of a leg is the list of the levels that it yields.
pub mod Rounds
pub mod Loop
pub mod Fills
pub mod Reached
pub mod Account
pub mod Result
use polybot.Common.{
  ℕ, zero, suc, ◌+◌, ◌-◌, ◌*◌, ◌/◌, min, Bool, true, false, not, ◌||◌, Option, none, some, List, [],
  ◌∷◌, ltb, leb, ◌==◌, if◌then◌else◌, map, unwrap_or, and_then,
}
use polybot.Common.Int.{ℤ, pos, pos_part, ◌+ℤ◌, ◌-ℤ◌, leb_ℤ, ltb_ℤ, min_ℤ}
use polybot.Num.{
  TickSize, Px, Qty, Usdc, Bps, levels, microusdc, buy_cost, sell_proceeds, edge_bps, fee_microusdc,
}
use polybot.Book.{Ladder, collect, iter_from_best}
use polybot.Instrument.{TokenId}
use polybot.Engine.{Action, LegFill, ArbClass, Opportunity}

pub record LegSpec : Type 0 where
  pub token : TokenId
  pub action : Action
  pub ladder : Ladder
  pub fee_bps : Bps

pub record BasketSpec : Type 0 where
  pub legs : List LegSpec
  pub payout_per_share : ℕ
  pub collateral_per_share : ℕ
  pub gas : ℕ

pub record WalkResult : Type 0 where
  pub units : Qty
  pub net : Usdc
  pub basis : Usdc
  pub edge : Bps
  pub fills : List LegFill

unfoldable pub into_opportunity : WalkResult → ArbClass → Opportunity
into_opportunity w class = record {
  class = class;
  fills = w.fills;
  units = w.units;
  net = w.net;
  basis = w.basis;
  edge = w.edge;
  splits = [];
}

-- `fee_bps.0.max(0) * pm.min(1_000_000 - pm)`
abbrev pub scaled_leg_fee : Bps → ℕ → ℕ
scaled_leg_fee fee_bps pm = pos_part fee_bps * min pm (1000000 - pm)

unfoldable pub scaled_leg_cost : Action → Bps → ℕ → ℤ
scaled_leg_cost Action.buy fee_bps pm = pos (10000 * pm + scaled_leg_fee fee_bps pm)
scaled_leg_cost Action.sell fee_bps pm =
    pos 0 -ℤ (pos (10000 * pm) -ℤ pos (scaled_leg_fee fee_bps pm))

pub record Cursor : Type 0 where
  pub leg : LegSpec
  pub rest : List (Px × Qty)
  pub cur : Option (Px × ℕ)
  pub segs : List (Px × ℕ)

-- `levels.next()`: the cursor at the next of the levels left.
unfoldable pub next_level : Cursor → List (Px × Qty) → Cursor
next_level c [] = record c { rest = []; cur = none }
next_level c (x ∷ xs) = record c { rest = xs; cur = some x }

-- What the iterator of a ladder yields.
unfoldable pub ladder_levels : Ladder → List (Px × Qty)
ladder_levels l = unwrap_or (collect (levels l.ts) l (iter_from_best l)) []

unfoldable pub open_cursor : LegSpec → Cursor
open_cursor leg =
    next_level (record { leg = leg; rest = []; cur = none; segs = [] }) (ladder_levels leg.ladder)

abbrev pub u64_max : ℕ
u64_max = 18446744073709551615

-- The variables of one round.
pub record Round : Type 0 where
  pub marginal : ℤ
  pub chunk : ℕ
  pub constrained : Bool
  pub basis_per_share_scaled : ℕ
  pub exhausted : Bool

-- The basis that a leg adds: its cost if it is a buy, which is never negative.
abbrev pub basis_of : Action → ℤ → ℕ
basis_of Action.buy cost = pos_part cost
basis_of Action.sell cost = 0

unfoldable pub probe : Round → LegSpec → Option (Px × ℕ) → Round
probe r leg none = record r { exhausted = true }
probe r leg (some (p, rem)) =
    let cost = scaled_leg_cost leg.action leg.fee_bps (microusdc p leg.ladder.ts) in
    record r {
      marginal = r.marginal -ℤ cost;
      basis_per_share_scaled = r.basis_per_share_scaled + basis_of leg.action cost;
      chunk = min r.chunk rem;
      constrained = true;
    }

unfoldable pub probe_all : Round → List Cursor → Round
probe_all r [] = r
probe_all r (c ∷ cs) = probe_all (probe r c.leg c.cur) cs

unfoldable pub round_start : BasketSpec → Round
round_start spec = record {
  marginal = pos (10000 * spec.payout_per_share) -ℤ pos (10000 * spec.collateral_per_share);
  chunk = u64_max;
  constrained = false;
  basis_per_share_scaled = 10000 * spec.collateral_per_share;
  exhausted = false;
}

-- The micro-shares that the rest of the basis allows.
unfoldable pub basis_cap : ℤ → ℕ → ℕ
basis_cap remaining basis =
    min (pos_part (min_ℤ remaining (pos 1000000000000000000)) * 10000000000 / basis) u64_max

-- `chunk` under the basis cap; `none` is a `break`.
unfoldable pub capped_chunk : Usdc → ℕ → Round → Option ℕ
capped_chunk max_basis basis_used r =
    let remaining = max_basis -ℤ pos basis_used in
    let cap = basis_cap remaining r.basis_per_share_scaled in
    if ltb 0 r.basis_per_share_scaled
    then (if leb_ℤ remaining (pos 0)
        then none
        else if cap == 0
        then none
        else some (min r.chunk cap))
    else some r.chunk

-- The chunk of a round; `none` is a `break`.
unfoldable pub round_chunk : Usdc → ℕ → Round → Option ℕ
round_chunk max_basis basis_used r =
    if r.exhausted || not r.constrained || leb_ℤ r.marginal (pos 0) || r.chunk == 0
    then none
    else capped_chunk max_basis basis_used r

-- A fill at `p` of the vector of segments: merged with the last one if that is at `p`.
unfoldable pub push_seg : List (Px × ℕ) → Px → ℕ → List (Px × ℕ)
push_seg [] p q = (p, q) ∷ []
push_seg ((p', q') ∷ []) p q = if p' == p then (p', q' + q) ∷ [] else (p', q') ∷ (p, q) ∷ []
push_seg (s ∷ t ∷ ss) p q = s ∷ push_seg (t ∷ ss) p q

unfoldable pub take_from : Cursor → Option (Px × ℕ) → ℕ → Cursor
take_from c none chunk = c
take_from c (some (p, rem)) chunk =
    let filled : Cursor = record c { segs = push_seg c.segs p chunk } in
    let new_rem = rem - chunk in
    if new_rem == 0 then next_level filled c.rest else record filled { cur = some (p, new_rem) }

unfoldable pub take_all : List Cursor → ℕ → List Cursor
take_all [] chunk = []
take_all (c ∷ cs) chunk = take_from c c.cur chunk ∷ take_all cs chunk

pub record WalkState : Type 0 where
  pub cursors : List Cursor
  pub units : ℕ
  pub basis_used : ℕ

abbrev pub basis_den : ℕ
basis_den = 10000000000

unfoldable pub take_chunk : WalkState → ℕ → ℕ → WalkState
take_chunk s basis chunk = record {
  cursors = take_all s.cursors chunk;
  units = s.units + chunk;
  basis_used = s.basis_used + (basis * chunk + basis_den - 1) / basis_den;
}

abbrev pub state_round : BasketSpec → WalkState → Round
state_round spec s = probe_all (round_start spec) s.cursors

-- The `loop` of `walk`; `none` is spent fuel.
unfoldable pub walk_loop : ℕ → BasketSpec → Usdc → WalkState → Option WalkState
walk_loop zero spec max_basis s = none
walk_loop (suc fuel) spec max_basis s =
    elim (round_chunk max_basis s.basis_used (state_round spec s)) [
      | none ↦ some s
      | some chunk ↦
          walk_loop fuel spec max_basis
            (take_chunk s (state_round spec s).basis_per_share_scaled chunk)
    ]

-- The accounting of one leg.
pub record LegTotals : Type 0 where
  pub leg_cash : ℤ
  pub outlay : ℕ
  pub worst : Option Px
  pub qty : ℕ

unfoldable pub account_seg : LegSpec → LegTotals → Action → Px → ℕ → LegTotals
account_seg leg t Action.buy p q =
    let pm = microusdc p leg.ladder.ts in
    let cost = buy_cost pm q + fee_microusdc leg.fee_bps pm q in
    record {
      leg_cash = t.leg_cash -ℤ pos cost;
      outlay = t.outlay + cost;
      worst = some p;
      qty = t.qty + q;
    }
account_seg leg t Action.sell p q =
    let pm = microusdc p leg.ladder.ts in
    record t {
      leg_cash = t.leg_cash +ℤ (pos (sell_proceeds pm q) -ℤ pos (fee_microusdc leg.fee_bps pm q));
      worst = some p;
      qty = t.qty + q;
    }

unfoldable pub account_segs : LegSpec → LegTotals → List (Px × ℕ) → LegTotals
account_segs leg t [] = t
account_segs leg t ((p, q) ∷ ss) = account_segs leg (account_seg leg t leg.action p q) ss

abbrev pub no_totals : LegTotals
no_totals = record { leg_cash = pos 0; outlay = 0; worst = none; qty = 0 }

-- The accounting of all legs: cash, buy outlay and fills; `none` where a leg has no segment.
pub record Totals : Type 0 where
  pub cash : ℤ
  pub buy_outlay : ℕ
  pub fills : List LegFill

-- One leg's fill in front of those of the legs behind it.
abbrev pub add_leg : LegSpec → LegTotals → Option Px → Option Totals → Option Totals
add_leg leg t none rest = none
add_leg leg t (some worst) none = none
add_leg leg t (some worst) (some r) = some (record {
  cash = t.leg_cash +ℤ r.cash;
  buy_outlay = t.outlay + r.buy_outlay;
  fills =
      record {
        token = leg.token;
        action = leg.action;
        ts = leg.ladder.ts;
        limit_px = worst;
        qty = t.qty;
        cash = t.leg_cash;
      }
      ∷ r.fills;
})

unfoldable pub account : List Cursor → Option Totals
account [] = some (record { cash = pos 0; buy_outlay = 0; fills = [] })
account (c ∷ cs) =
    let t = account_segs c.leg no_totals c.segs in add_leg c.leg t t.worst (account cs)

-- The gates behind the accounting.
abbrev pub gate : Usdc → Bps → ℕ → Usdc → Usdc → List LegFill → Option Bps → Option WalkResult
gate min_profit floor units net basis fills none = none
gate min_profit floor units net basis fills (some edge) =
    if ltb_ℤ net min_profit
    then none
    else if ltb_ℤ edge floor
    then none
    else some (record { units = units; net = net; basis = basis; edge = edge; fills = fills })

abbrev pub payout_of : BasketSpec → ℕ → ℕ
payout_of spec units = spec.payout_per_share * units / 1000000

abbrev pub collateral_of : BasketSpec → ℕ → ℕ
collateral_of spec units = (spec.collateral_per_share * units + 999999) / 1000000

unfoldable pub settle : BasketSpec → Usdc → Bps → ℕ → Option Totals → Option WalkResult
settle spec min_profit floor units none = none
settle spec min_profit floor units (some t) =
    let net =
      t.cash +ℤ pos (payout_of spec units) -ℤ pos (collateral_of spec units) -ℤ pos spec.gas in
    let basis = pos (t.buy_outlay + collateral_of spec units) in
    gate min_profit floor units net basis t.fills (edge_bps net basis)

unfoldable pub finish : BasketSpec → Usdc → Bps → WalkState → Option WalkResult
finish spec min_profit floor s =
    if s.units == 0 then none else settle spec min_profit floor s.units (account s.cursors)

unfoldable pub start : BasketSpec → WalkState
start spec = record { cursors = map open_cursor spec.legs; units = 0; basis_used = 0 }

-- The quantity left on a leg.
abbrev pub level_sum : List (Px × ℕ) → ℕ
level_sum [] = 0
level_sum ((p, q) ∷ xs) = q + level_sum xs

abbrev pub cur_sum : Option (Px × ℕ) → ℕ
cur_sum none = 0
cur_sum (some (p, q)) = q

abbrev pub left_on : Cursor → ℕ
left_on c = cur_sum c.cur + level_sum c.rest

-- Enough rounds: each takes a micro-share at least off the first leg.
abbrev pub rounds : List Cursor → ℕ
rounds [] = 1
rounds (c ∷ cs) = suc (left_on c)

abbrev pub no_legs : List LegSpec → Bool
no_legs [] = true
no_legs (l ∷ ls) = false

-- `walk` with its rounds counted; the outer `none` is spent fuel.
unfoldable pub walk_within : ℕ → BasketSpec → Usdc → Usdc → Bps → Option (Option WalkResult)
walk_within fuel spec max_basis min_profit floor =
    if no_legs spec.legs
    then some none
    else and_then (walk_loop fuel spec max_basis (start spec))
        (λ s. some (finish spec min_profit floor s))

unfoldable pub walk : BasketSpec → Usdc → Usdc → Bps → Option WalkResult
walk spec max_basis min_profit floor =
    unwrap_or (walk_within (rounds (start spec).cursors) spec max_basis min_profit floor) none
