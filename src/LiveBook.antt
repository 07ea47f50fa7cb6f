-- ===== src/LiveBook.antt =====
-- crates/ingestion/src/livebook.rs: the book of one token with its staleness, integrity and count of
-- off-tick prices. An `Instant` is a number of milliseconds, and `duration_since` saturates at 0.
-- The `u32` counter is unbounded here.
pub mod Prices
pub mod Contents
pub mod Integrity
mod Tests
use Prim.Native.String.{String}
use polybot.Common.{
  ℕ, ◌+◌, ◌-◌, ◌/◌, ◌%◌, ◌^◌, Bool, true, false, not, ◌&&◌, ◌||◌, Option, none, some, List, [], ◌∷◌,
  ltb, leb, ◌==◌, if◌then◌else◌, to_option, unwrap_or,
}
use polybot.Num.{TickSize, Px, Qty, unit_microusdc, px_new}
use polybot.Book.{Side, Book, book_new, apply}

pub record RawLevel : Type 0 where
  pub price_micro : ℕ
  pub size_micro : ℕ

pub record RawChange : Type 0 where
  pub side_buy : Bool
  pub price_micro : ℕ
  pub size_micro : ℕ

pub data ResnapshotReason : Type 0 where
  crossed_book persistent_off_tick unknown_token feed_lost : ResnapshotReason

pub data ApplyOutcome : Type 0 where
  applied : ApplyOutcome
  needs_resnapshot : ResnapshotReason → ApplyOutcome

abbrev pub off_tick_resnapshot_threshold : ℕ
off_tick_resnapshot_threshold = 16

pub record LiveBook : Type 0 where
  pub book : Book
  pub ts : TickSize
  pub last_update : Option ℕ
  pub hash : Option String
  pub valid : Bool
  pub off_tick : ℕ
  pub invalid_reason : Option ResnapshotReason

-- `LiveBook::new`
unfoldable pub live_new : TickSize → LiveBook
live_new ts = record {
  book = book_new ts;
  ts = ts;
  last_update = none;
  hash = none;
  valid = false;
  off_tick = 0;
  invalid_reason = none;
}

-- `self.last_update.is_none_or(|t| now.duration_since(t) >= window)`
abbrev pub aged : Option ℕ → ℕ → ℕ → Bool
aged none now window = true
aged (some t) now window = leb window (now - t)

unfoldable pub is_stale : LiveBook → ℕ → ℕ → Bool
is_stale b now window = not b.valid || aged b.last_update now window

unfoldable pub force_stale : LiveBook → LiveBook
force_stale b = record b {
  valid = false;
  last_update = none;
  invalid_reason = some ResnapshotReason.feed_lost;
}

-- The cast to `u16` wraps.
unfoldable pub price_to_px : TickSize → ℕ → Option Px
price_to_px ts micro =
    let unit = unit_microusdc ts in
    if micro == 0 || leb 1000000 micro || not (micro % unit == 0)
    then none
    else to_option (px_new (micro / unit % 2 ^ 16) ts)

-- One level, its price already read: an off-tick price is counted and skipped.
unfoldable pub place : Option Px → Side → ℕ → Book × ℕ → Book × ℕ
place (some px) side size (b, off) = (apply b side px size, off)
place none side size (b, off) = (b, off + 1)

unfoldable pub apply_level : TickSize → Side → ℕ → ℕ → Book × ℕ → Book × ℕ
apply_level ts side price size s = place (price_to_px ts price) side size s

-- The loops of `apply_snapshot`.
unfoldable pub apply_levels : TickSize → Side → List RawLevel → Book × ℕ → Book × ℕ
apply_levels ts side [] s = s
apply_levels ts side (l ∷ ls) s =
    apply_levels ts side ls (apply_level ts side l.price_micro l.size_micro s)

abbrev pub change_side : RawChange → Side
change_side ch = if ch.side_buy then Side.bid else Side.ask

-- The loop of `apply_changes`.
unfoldable pub apply_batch : TickSize → List RawChange → Book × ℕ → Book × ℕ
apply_batch ts [] s = s
apply_batch ts (ch ∷ chs) s =
    apply_batch ts chs (apply_level ts (change_side ch) ch.price_micro ch.size_micro s)

abbrev pub meets : Option Px → Option Px → Bool
meets (some bb) (some ba) = leb ba bb
meets _ _ = false

-- Both sides have a best level, and `bb >= ba`.
abbrev pub crossed : Book → Bool
crossed b = meets b.bids.best b.asks.best

unfoldable pub apply_snapshot :
    LiveBook → ℕ → List RawLevel → List RawLevel → String → LiveBook × ApplyOutcome
apply_snapshot b now bids asks hash =
    let (built, off) =
      apply_levels b.ts Side.ask asks (apply_levels b.ts Side.bid bids (book_new b.ts, 0)) in
    if crossed built
    then (
      record b {
        valid = false;
        invalid_reason = some ResnapshotReason.crossed_book;
        book = book_new b.ts;
      },
      ApplyOutcome.needs_resnapshot ResnapshotReason.crossed_book,
    )
    else (
      record b {
        book = built;
        off_tick = off;
        hash = some hash;
        last_update = some now;
        valid = true;
        invalid_reason = none;
      },
      ApplyOutcome.applied,
    )

-- A book invalidated for `reason`, with the demand for a new snapshot.
abbrev pub invalidate : LiveBook → ResnapshotReason → LiveBook × ApplyOutcome
invalidate b reason =
    (record b { valid = false; invalid_reason = some reason }, ApplyOutcome.needs_resnapshot reason)

abbrev pub keep_hash : Option String → Option String → Option String
keep_hash (some h) old = some h
keep_hash none old = old

unfoldable pub apply_changes :
    LiveBook → ℕ → List RawChange → Option String → LiveBook × ApplyOutcome
apply_changes b now changes hash =
    if not b.valid
    then (
      b,
      ApplyOutcome.needs_resnapshot (unwrap_or b.invalid_reason ResnapshotReason.crossed_book),
    )
    else let (built, off) = apply_batch b.ts changes (b.book, b.off_tick) in
      let b' : LiveBook = record b { book = built; off_tick = off } in
      if leb off_tick_resnapshot_threshold off
      then invalidate b' ResnapshotReason.persistent_off_tick
      else if crossed built
      then invalidate b' ResnapshotReason.crossed_book
      else (
        record b' { last_update = some now; hash = keep_hash hash b.hash },
        ApplyOutcome.applied,
      )

-- What a feed does to a book.
pub data FeedEvent : Type 0 where
  snapshot : ℕ → List RawLevel → List RawLevel → String → FeedEvent
  changes : ℕ → List RawChange → Option String → FeedEvent
  lost : FeedEvent

unfoldable pub feed_step : LiveBook → FeedEvent → LiveBook
feed_step b (FeedEvent.snapshot now bids asks hash) = (apply_snapshot b now bids asks hash).0
feed_step b (FeedEvent.changes now chs hash) = (apply_changes b now chs hash).0
feed_step b FeedEvent.lost = force_stale b

unfoldable pub feed : LiveBook → List FeedEvent → LiveBook
feed b [] = b
feed b (e ∷ es) = feed (feed_step b e) es
