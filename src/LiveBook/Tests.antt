-- ===== src/LiveBook/Tests.antt =====
-- A live book through a feed.
use polybot.Common.{
  ℕ, ◌≤◌, ◌≡◌, refl, arith, true, false, some, none, List, [], ◌∷◌, ◌↔◌, replicate,
}
use polybot.Num.{TickSize, levels, px_new, unit_microusdc, microusdc}
use polybot.Book.{book_new, ladder_new, ladder_set, rescan_from, apply}
use polybot.Book.Ranks.{IsInterior}
use polybot.LiveBook.{
  RawLevel, RawChange, LiveBook, ResnapshotReason, ApplyOutcome, FeedEvent, live_new, price_to_px,
  place, apply_level, apply_levels, apply_batch, apply_snapshot, apply_changes, feed,
}
use polybot.LiveBook.Prices.{price_to_px-microusdc}
use polybot.LiveBook.Integrity.{IsLive, rebuilt, feed-live_new-IsLive}

abbrev level : ℕ → ℕ → RawLevel
level p s = record { price_micro = p; size_micro = s }

abbrev bids : List RawLevel
bids = level 450000 10 ∷ level 400000 3 ∷ []

abbrev asks : List RawLevel
asks = level 550000 20 ∷ level 123 1 ∷ []

abbrev crossing : List RawChange
crossing = record { side_buy = true; price_micro = 560000; size_micro = 1 } ∷ []

abbrev quiet : List RawChange
quiet = record { side_buy = false; price_micro = 500000; size_micro = 4 } ∷ []

fed : LiveBook
unfolding apply_snapshot live_new
fed = (apply_snapshot (live_new TickSize.cent) 100 bids asks "h").0

-- The off-tick ask is skipped and counted.
fed_state : (fed.book.bids.best ≡ some 45) × (fed.book.asks.best ≡ some 55) × (fed.off_tick ≡ 1)
unfolding fed apply_levels apply_level place price_to_px book_new ladder_new apply ladder_set
    rescan_from px_new levels unit_microusdc
fed_state = (refl, refl, refl)

fed_crosses :
    (apply_changes fed 110 crossing none).1
    ≡ ApplyOutcome.needs_resnapshot ResnapshotReason.crossed_book
unfolding fed apply_changes apply_batch apply_levels apply_level place price_to_px book_new
    ladder_new apply ladder_set rescan_from px_new levels unit_microusdc
fed_crosses = refl

fed-quiet : (apply_changes fed 110 quiet none).1 ≡ ApplyOutcome.applied
unfolding fed apply_changes apply_batch apply_levels apply_level place price_to_px book_new
    ladder_new apply ladder_set rescan_from px_new levels unit_microusdc
fed-quiet = refl

abbrev events : List FeedEvent
events =
    FeedEvent.snapshot 100 bids asks "h"
    ∷ FeedEvent.changes 110 quiet none
    ∷ FeedEvent.changes 120 crossing none
    ∷ FeedEvent.lost
    ∷ FeedEvent.snapshot 130 bids asks "i"
    ∷ []

feed-live_new-IsLive_example : IsLive (feed (live_new TickSize.cent) events)
feed-live_new-IsLive_example = feed-live_new-IsLive TickSize.cent events

abbrev off_grid : List RawLevel
off_grid = replicate 16 (level 123 1)

off_grid_applied : (apply_snapshot fed 120 bids off_grid "l").1 ≡ ApplyOutcome.applied
unfolding fed apply_snapshot apply_levels apply_level place price_to_px book_new ladder_new apply
    ladder_set rescan_from px_new levels unit_microusdc
off_grid_applied = refl

off_grid_count : 16 ≤ (rebuilt fed.ts bids off_grid).1
unfolding fed apply_levels apply_level place price_to_px book_new ladder_new apply ladder_set
    rescan_from px_new levels unit_microusdc
off_grid_count = omega arith

price_to_px-microusdc_example :
    (price_to_px TickSize.milli 455000 ≡ some 455)
    ↔ (IsInterior TickSize.milli 455 × (microusdc 455 TickSize.milli ≡ 455000))
price_to_px-microusdc_example = price_to_px-microusdc TickSize.milli 455000 455
