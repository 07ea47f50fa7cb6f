-- ===== src/Book/Tests.antt =====
-- Ladders at concrete writes.
use polybot.Common.{◌≡◌, refl, arith, some, [], ◌∷◌}
use polybot.Num.{TickSize, levels, px_new}
use polybot.Book.{
  Side, Ladder, ladder_new, ladder_set, rescan_from, iter_from_best, item_at, advance, next_loop,
  iter_next, collect,
}
use polybot.Book.Best.{IsValid, ladder_new-IsValid, ladder_set-IsValid}
use polybot.Book.Iter.{collect-depth}
use polybot.Book.Steps.{depth}

asks : Ladder
unfolding ladder_set ladder_new
asks = ladder_set (ladder_set (ladder_set (ladder_new TickSize.cent Side.ask) 60 5) 40 7) 50 9

asks_best : asks.best ≡ some 40
unfolding asks px_new levels
asks_best = refl

-- Zeroing the best level falls back to the next.
asks_zeroed : (ladder_set asks 40 0).best ≡ some 50
unfolding asks ladder_set px_new levels rescan_from
asks_zeroed = refl

asks_depth : collect 100 asks (iter_from_best asks) ≡ some ((40, 7) ∷ (50, 9) ∷ (60, 5) ∷ [])
unfolding asks collect iter_from_best iter_next next_loop item_at advance px_new levels
asks_depth = refl

asks-IsValid : IsValid asks
unfolding asks ladder_new levels
asks-IsValid = ladder_set-IsValid _ 50 9 (omega arith) (
    ladder_set-IsValid _ 40 7 (omega arith)
      (ladder_set-IsValid _ 60 5 (omega arith) (ladder_new-IsValid TickSize.cent Side.ask)))

ladder_set-IsValid_example : IsValid (ladder_set asks 40 0)
unfolding asks ladder_new levels
ladder_set-IsValid_example = ladder_set-IsValid asks 40 0 (omega arith) asks-IsValid

collect-depth_example : collect (levels asks.ts) asks (iter_from_best asks) ≡ some (depth asks)
collect-depth_example = collect-depth asks asks-IsValid
