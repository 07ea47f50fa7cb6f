-- ===== src/Exec/Venue.antt =====
-- crates/execution/src/venue.rs: the paper venue of fill-and-kill orders. Its latency is left out: the books
-- are those that are read once it has passed.
pub mod Fills
use polybot.Common.{
  ℕ, ◌-◌, min, Bool, Option, none, some, List, [], ◌∷◌, leb, ◌==◌, ◌||◌, not, if◌then◌else◌, Result,
  ok, err, unwrap_or,
}
use polybot.Common.Int.{pos, ◌-ℤ◌, ◌+ℤ◌}
use polybot.Num.{
  TickSize, Px, Qty, Usdc, Bps, one_share_micro, levels, microusdc, buy_cost, sell_proceeds,
  fee_microusdc,
}
use polybot.Book.{Ladder, Book, collect, iter_from_best}
use polybot.Instrument.{TokenId}
use polybot.Engine.{Action, GasTable}
use polybot.Makers.{VenueError}
use polybot.Exec.{Order}

-- One executed price level.
pub record Fill : Type 0 where
  pub px : Px
  pub qty : Qty
  pub cash : Usdc
  pub fee : Usdc

pub record SubmitOutcome : Type 0 where
  pub fills : List Fill
  pub filled : Qty
  pub venue_order_id : Option ℕ

abbrev pub taken_side : Book → Action → Ladder
taken_side b Action.buy = b.asks
taken_side b Action.sell = b.bids

abbrev pub within : Action → Px → Px → Bool
within Action.buy limit px = leb px limit
within Action.sell limit px = leb limit px

-- The signed cash of a fill, net of its fee.
abbrev pub cash_of : Action → ℕ → Qty → ℕ → Usdc
cash_of Action.buy px_micro take fee = pos 0 -ℤ (pos (buy_cost px_micro take) +ℤ pos fee)
cash_of Action.sell px_micro take fee = pos (sell_proceeds px_micro take) -ℤ pos fee

unfoldable pub fill_level : Order → Px → Qty → Fill
fill_level o px take =
    let px_micro = microusdc px o.ts in
    let fee = fee_microusdc o.fee_bps px_micro take in
    record { px = px; qty = take; cash = cash_of o.action px_micro take fee; fee = pos fee }

-- The loop of `fill_now`: the fills and what remains.
unfoldable pub fill_levels : Order → ℕ → List (Px × Qty) → List Fill × ℕ
fill_levels o remaining [] = ([], remaining)
fill_levels o remaining ((px, avail) ∷ ls) =
    let take = min remaining avail in
    let rest = fill_levels o (remaining - take) ls in
    if not (within o.action o.limit_px px) || remaining == 0
    then ([], remaining)
    else if take == 0
    then rest
    else (fill_level o px take ∷ rest.0, rest.1)

unfoldable pub fill_book : Order → Book → SubmitOutcome
fill_book o b =
    let l = taken_side b o.action in
    let (fills, remaining) =
      fill_levels o o.qty (unwrap_or (collect (levels l.ts) l (iter_from_best l)) []) in
    record { fills = fills; filled = o.qty - remaining; venue_order_id = none }

-- `split` and `merge` of `PaperVenue`.
abbrev pub paper_split : GasTable → Qty → Usdc
paper_split gas units = pos 0 -ℤ (pos (buy_cost one_share_micro units) +ℤ pos gas.split)

abbrev pub paper_merge : GasTable → Qty → Usdc
paper_merge gas units = pos (sell_proceeds one_share_micro units) -ℤ pos gas.merge

module _ (books : TokenId → Option Book) where
  unfoldable pub fill_now : Order → Result SubmitOutcome VenueError
  fill_now o = elim (books o.token) [
    | none ↦ err (VenueError.book_unavailable o.token)
    | some b ↦ ok (fill_book o b)
  ]

  -- `submit_all`: every order is filled on the same books.
  unfoldable pub submit_all : List Order → List (Result SubmitOutcome VenueError)
  submit_all [] = []
  submit_all (o ∷ os) = fill_now o ∷ submit_all os
