-- ===== src/Exec/Tests.antt =====
-- Orders on a concrete book and through their lifecycle.
use polybot.Common.{
  List, ◌≡◌, refl, arith, true, Option, none, some, [], ◌∷◌, Result, ok, subst, eq_of_some, ◌⊎◌,
  ◌<◌, ◌≤◌, ◌*◌,
}
use polybot.Common.Int.{pos, negsuc}
use polybot.Num.{TickSize, Qty, levels, px_new, unit_microusdc}
use polybot.Book.{
  Side, Book, book_new, book_ts, apply, ladder_new, ladder_set, rescan_from, collect,
  iter_from_best, iter_next, next_loop, item_at, advance,
}
use polybot.Book.Best.{IsValidBook, book_new-IsValidBook, apply-IsValidBook}
use polybot.Instrument.{TokenId}
use polybot.Engine.{Action, LegFill}
use polybot.Makers.{VenueError}
use polybot.Exec.{Order, OrderState, order_new}
use polybot.Exec.Venue.{Fill, SubmitOutcome, fill_levels, fill_book, fill_now}
use polybot.Exec.Venue.Fills.{Filled, fill_now-Filled}
use polybot.Exec.Ledger.{ledger_new}
use polybot.Exec.Surplus.{Leg, best_leg, surplus_each, no_surplus, surpluses}
use polybot.Exec.Surplus.Hedged.{IsIn, AllIdle, AllAtMost, AllKept, surpluses-AllKept}
use polybot.Exec.Repair.{weight_of, total_weight, bump_of, RepairStep, repair_leg}
use polybot.Exec.Repair.Budget.{total_concession, repairs_within_net}
use polybot.Exec.Repair.Panics.{repair_leg-panicked}
use polybot.Exec.Lifecycle.{OrderStore, Run, open_order, close_order}
use polybot.Exec.Lifecycle.Records.{History, IsRecorded, lifecycle-IsRecorded}
use polybot.Exec.Lifecycle.Closes.{Outcome, OutcomeFits, Fails, Closed, close_order-Closed}
use polybot.Exec.Lifecycle.Done.{close_order_done}

-- Asks at 44 and 48.
market : Book
market = apply (apply (book_new TickSize.cent) Side.ask 44 100000000) Side.ask 48 50000000

market-IsValidBook : IsValidBook (book_ts market) market
unfolding market apply book_new ladder_new ladder_set levels
market-IsValidBook = apply-IsValidBook TickSize.cent _ Side.ask 48 50000000 (omega arith) (
    apply-IsValidBook TickSize.cent _ Side.ask 44 100000000 (omega arith)
      (book_new-IsValidBook TickSize.cent))

market_valid : (b : Book) → some market ≡ some b → IsValidBook (book_ts b) b
market_valid b e = subst (λ c. IsValidBook (book_ts c) c) (eq_of_some e) market-IsValidBook

abbrev books : TokenId → Option Book
books t = some market

abbrev order : Order
order = order_new 7 1 1 Action.buy TickSize.cent 46 200000000 (pos 0)

-- The level at 48 is beyond the limit.
order_fill : (fill_book order market).filled ≡ 100000000
unfolding fill_book fill_levels market apply book_new ladder_new ladder_set rescan_from collect
    iter_from_best iter_next next_loop item_at advance levels px_new
order_fill = refl

fill_now-Filled_example : Filled order (some market) (fill_now books order)
fill_now-Filled_example = fill_now-Filled books order market_valid

abbrev writer : OrderStore
writer = record { State = Unit {0}; send = λ s m. (tt, true) }

abbrev drafted : Run (Unit {0})
drafted = record { store = tt; acked = []; order = order; ledger = ledger_new; errors = 0 }

abbrev fill : Fill
fill = record { px = 44; qty = 100000000; cash = negsuc 43999999; fee = pos 0 }

abbrev answer : Result SubmitOutcome VenueError
answer = ok (record { fills = fill ∷ []; filled = 100000000; venue_order_id = none })

lifecycle-IsRecorded_example :
    IsRecorded (open_order writer drafted).0 × IsRecorded (close_order writer drafted answer).0
lifecycle-IsRecorded_example = lifecycle-IsRecorded writer drafted answer History.drafted

abbrev submitted : Run (Unit {0})
submitted = record drafted { order = record order { state = OrderState.submitted } }

close_order-Closed_example :
    Outcome
      (Fails writer (¬ OutcomeFits answer))
      (Closed writer submitted answer)
      (close_order writer submitted answer)
close_order-Closed_example = close_order-Closed writer submitted answer refl

close_order_done_example :
    let (r', out) = close_order writer submitted answer in
    (q : Qty) × (out ≡ ok q) × Closed writer submitted answer q r'
close_order_done_example = close_order_done writer (λ s m. refl) submitted answer refl (refl, tt)

-- Of two legs for 100 shares the first is filled for half.
abbrev legs : List Leg
legs = (100, 50) ∷ (100, 80) ∷ []

legs_surplus : surpluses legs ≡ 0 ∷ 30 ∷ []
unfolding surpluses best_leg surplus_each
legs_surplus = refl

surpluses-AllKept_example :
    (AllIdle legs × (surpluses legs ≡ no_surplus legs))
    ⊎ ((m : Leg) × IsIn m legs × (0 < m.0) × AllAtMost m legs × AllKept m legs (surpluses legs))
surpluses-AllKept_example = surpluses-AllKept legs

-- A buy of 100 shares at 45.
abbrev leg : LegFill
leg = record {
  token = 1;
  action = Action.buy;
  ts = TickSize.cent;
  limit_px = 45;
  qty = 100000000;
  cash = negsuc 44999999;
}

abbrev half : List (LegFill × Qty)
half = (leg, 50000000) ∷ []

-- One dollar over 50 shares pays for two ticks.
half_repaired : repair_leg 1000000 (total_weight half) leg 50000000 ≡ RepairStep.ordered 47 50000000
unfolding repair_leg total_weight weight_of bump_of px_new levels unit_microusdc
half_repaired = refl

repairs_within_net_example : total_concession 1000000 (total_weight half) half ≤ 1000000 * 1000000
unfolding levels total_weight weight_of
repairs_within_net_example =
    repairs_within_net 1000000 half ((omega arith, omega arith), tt) (omega arith)

-- 1000 micro-shares are left.
repair_leg-panicked_example :
    repair_leg 1000000 (weight_of leg 99999000) leg 99999000 ≡ RepairStep.panicked
unfolding levels weight_of unit_microusdc
repair_leg-panicked_example =
    repair_leg-panicked 1000000 leg 99999000 refl (omega arith, omega arith) (omega arith)
      (omega arith) (omega arith)
