-- ===== src/Shard/Tests.antt =====
-- A shard of two tokens through a run.
use polybot.Common.{◌≡◌, refl, true, none, List, [], ◌∷◌, lookup, put}
use polybot.Num.{TickSize, levels, px_new, unit_microusdc}
use polybot.Book.{book_new, ladder_new, ladder_set, rescan_from, apply}
use polybot.LiveBook.{
  RawLevel, RawChange, price_to_px, place, apply_level, apply_levels, apply_batch, live_new,
}
use polybot.LiveBook as Live
use polybot.Shard.{ShardEvent, shard_new, shard_run, apply_snapshot, apply_changes}
use polybot.Shard.Feeds.{own_run, shard_run-own_run}
use polybot.Shard.Stats.{IsCounted, Swept, shard_run-Swept}

abbrev bids : List RawLevel
bids = record { price_micro = 450000; size_micro = 10 } ∷ []

abbrev asks : List RawLevel
asks = record { price_micro = 550000; size_micro = 20 } ∷ []

abbrev crossing : List RawChange
crossing = record { side_buy = true; price_micro = 560000; size_micro = 1 } ∷ []

-- A snapshot, a batch for an unknown token, and one that crosses the book.
abbrev events : List ShardEvent
events =
    ShardEvent.snapshot 100 1 TickSize.cent bids asks "h"
    ∷ ShardEvent.changes 110 2 crossing none
    ∷ ShardEvent.changes 120 1 crossing none
    ∷ []

events_counted :
    let st = (shard_run shard_new events).stats in
    (st.resnapshots_requested ≡ 2)
    × (st.resnap_unknown ≡ 1)
    × (st.resnap_crossed ≡ 1)
    × (st.deltas ≡ 1)
unfolding shard_run apply_snapshot apply_changes Live.apply_snapshot Live.apply_changes live_new
    lookup put apply_batch apply_levels apply_level place price_to_px book_new ladder_new apply
    ladder_set rescan_from px_new levels unit_microusdc
events_counted = (refl, refl, refl, refl)

shard_run-own_run_example :
    lookup (shard_run shard_new events).books 1 ≡ own_run 1 (lookup shard_new.books 1) events
shard_run-own_run_example = shard_run-own_run shard_new 1 events

shard_run-Swept_example :
    IsCounted (shard_run shard_new events).stats × Swept (shard_run shard_new events) 1 130 50
shard_run-Swept_example = shard_run-Swept events 1 130 50
