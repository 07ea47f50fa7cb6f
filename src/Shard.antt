-- ===== src/Shard.antt =====
-- crates/ingestion/src/shard.rs: the live books of a shard's tokens, with its counters. The hash map
-- is an association list in the order of the tokens. The `u64` counters are unbounded here.
pub mod Feeds
pub mod Stats
mod Tests
use Prim.Native.String.{String}
use polybot.Common.{
  ℕ, ◌+◌, ◌-◌, Bool, true, false, not, Option, none, some, List, [], ◌∷◌, ltb, ◌==◌, if◌then◌else◌,
  unwrap_or, length, lookup, put,
}
use polybot.Num.{TickSize}
use polybot.Instrument.{TokenId}
use polybot.LiveBook.{
  RawLevel, RawChange, LiveBook, ResnapshotReason, ApplyOutcome, live_new, is_stale, force_stale,
}
use polybot.LiveBook as Live

pub record ShardStats : Type 0 where
  pub snapshots : ℕ
  pub deltas : ℕ
  pub off_tick : ℕ
  pub resnapshots_requested : ℕ
  pub resnap_crossed : ℕ
  pub resnap_off_tick : ℕ
  pub resnap_unknown : ℕ
  pub resnap_feed_lost : ℕ

pub record Shard : Type 0 where
  pub books : List (TokenId × LiveBook)
  pub stats : ShardStats

-- `Shard::default`
abbrev pub shard_new : Shard
shard_new = record {
  books = [];
  stats = record {
    snapshots = 0;
    deltas = 0;
    off_tick = 0;
    resnapshots_requested = 0;
    resnap_crossed = 0;
    resnap_off_tick = 0;
    resnap_unknown = 0;
    resnap_feed_lost = 0;
  };
}

-- `entry(token).or_insert_with`
abbrev pub or_insert : Shard → TokenId → TickSize → LiveBook
or_insert s token tick = unwrap_or (lookup s.books token) (live_new tick)

unfoldable pub ensure_book : Shard → TokenId → TickSize → Shard
ensure_book s token tick = record s { books = put s.books token (or_insert s token tick) }

-- The `match reason`.
abbrev pub count_reason : ShardStats → ResnapshotReason → ShardStats
count_reason st ResnapshotReason.crossed_book = record st { resnap_crossed = st.resnap_crossed + 1 }
count_reason st ResnapshotReason.persistent_off_tick = record st {
  resnap_off_tick = st.resnap_off_tick + 1;
}
count_reason st ResnapshotReason.unknown_token = record st {
  resnap_unknown = st.resnap_unknown + 1;
}
count_reason st ResnapshotReason.feed_lost = record st {
  resnap_feed_lost = st.resnap_feed_lost + 1;
}

abbrev pub count_outcome : ShardStats → ApplyOutcome → ShardStats
count_outcome st ApplyOutcome.applied = st
count_outcome st (ApplyOutcome.needs_resnapshot reason) =
    count_reason (record st { resnapshots_requested = st.resnapshots_requested + 1 }) reason

unfoldable pub apply_snapshot :
    Shard → ℕ → TokenId → TickSize → List RawLevel → List RawLevel → String → Shard × ApplyOutcome
apply_snapshot s now token tick bids asks hash =
    let (book, outcome) = Live.apply_snapshot (or_insert s token tick) now bids asks hash in
    (
      record {
        books = put s.books token book;
        stats = count_outcome (record s.stats { snapshots = s.stats.snapshots + 1 }) outcome;
      },
      outcome,
    )

-- The off-tick prices that a batch adds to the count of the book.
abbrev pub off_tick_growth : ℕ → ℕ → ℕ
off_tick_growth before after = if ltb before after then after - before else 0

abbrev pub changes_of : Shard → TokenId → LiveBook → LiveBook × ApplyOutcome → Shard × ApplyOutcome
changes_of s token b (book, outcome) = (
  record {
    books = put s.books token book;
    stats =
        count_outcome
          (record s.stats {
            deltas = s.stats.deltas + 1;
            off_tick = s.stats.off_tick + off_tick_growth b.off_tick book.off_tick;
          })
          outcome;
  },
  outcome,
)

-- An unknown token gets no book.
abbrev pub unknown_of : Shard → Shard × ApplyOutcome
unknown_of s = (
  record s {
    stats = count_outcome s.stats (ApplyOutcome.needs_resnapshot ResnapshotReason.unknown_token);
  },
  ApplyOutcome.needs_resnapshot ResnapshotReason.unknown_token,
)

-- The batch, once the book of its token is looked up.
abbrev pub changes_found :
    Shard → ℕ → TokenId → List RawChange → Option String → Option LiveBook → Shard × ApplyOutcome
changes_found s now token changes hash none = unknown_of s
changes_found s now token changes hash (some b) =
    changes_of s token b (Live.apply_changes b now changes hash)

unfoldable pub apply_changes :
    Shard → ℕ → TokenId → List RawChange → Option String → Shard × ApplyOutcome
apply_changes s now token changes hash =
    changes_found s now token changes hash (lookup s.books token)

-- `is_none_or`
unfoldable pub token_is_stale : Shard → TokenId → ℕ → ℕ → Bool
token_is_stale s token now window = elim (lookup s.books token) [
  | none ↦ true
  | some b ↦ is_stale b now window
]

-- The tokens of the books that meet a test, `filter` and `map`.
unfoldable pub tokens_where : (LiveBook → Bool) → List (TokenId × LiveBook) → List TokenId
tokens_where test [] = []
tokens_where test ((t, b) ∷ bs) =
    let rest = tokens_where test bs in if test b then t ∷ rest else rest

abbrev pub stale_tokens : Shard → ℕ → ℕ → List TokenId
stale_tokens s now window = tokens_where (λ b. is_stale b now window) s.books

abbrev pub invalid_tokens : Shard → List TokenId
invalid_tokens s = tokens_where (λ b. not b.valid) s.books

unfoldable pub force_all : List (TokenId × LiveBook) → List (TokenId × LiveBook)
force_all [] = []
force_all ((t, b) ∷ bs) = (t, force_stale b) ∷ force_all bs

abbrev pub mark_all_stale : Shard → Shard
mark_all_stale s = record s { books = force_all s.books }

abbrev pub book_count : Shard → ℕ
book_count s = length s.books

-- What the owner of a shard does with it.
pub data ShardEvent : Type 0 where
  ensured : TokenId → TickSize → ShardEvent
  snapshot : ℕ → TokenId → TickSize → List RawLevel → List RawLevel → String → ShardEvent
  changes : ℕ → TokenId → List RawChange → Option String → ShardEvent
  lost : ShardEvent

abbrev pub shard_step : Shard → ShardEvent → Shard
shard_step s (ShardEvent.ensured t tick) = ensure_book s t tick
shard_step s (ShardEvent.snapshot now t tick bids asks hash) =
    (apply_snapshot s now t tick bids asks hash).0
shard_step s (ShardEvent.changes now t chs hash) = (apply_changes s now t chs hash).0
shard_step s ShardEvent.lost = mark_all_stale s

unfoldable pub shard_run : Shard → List ShardEvent → Shard
shard_run s [] = s
shard_run s (e ∷ es) = shard_run (shard_step s e) es
