-- ===== src/LiveBook/Integrity.antt =====
-- What `valid` promises of a live book, over any sequence of feed events.
use Prim.Native.String.{String}
use polybot.Common.{
  ℕ, ◌+◌, ◌≤◌, ◌<◌, ◌≡◌, refl, ◌≢◌, true, false, Option, none, some, List, [], ◌∷◌, arith, ◌⊎◌, ◌↔◌,
  inl, inr, Bool-cases,
}
use polybot.Num.{TickSize, Px}
use polybot.Book.{Side, Book, book_new}
use polybot.Book.Best.{IsValidBook, book_new-IsValidBook, apply-IsValidBook}
use polybot.Book.Ranks.{IsInterior}
use polybot.LiveBook.Prices.{price_to_px-microusdc}
use polybot.LiveBook.{
  RawLevel, RawChange, LiveBook, ResnapshotReason, ApplyOutcome, live_new, is_stale, force_stale,
  price_to_px, place, apply_level, apply_levels, apply_batch, change_side, crossed, apply_snapshot,
  apply_changes, FeedEvent, feed_step, feed,
}

place-IsValidBook :
    (ts : TickSize) (o : Option Px) (s : Side) (size : ℕ) (st : Book × ℕ)
    → ((p : Px) → o ≡ some p → IsInterior ts p)
    → IsValidBook ts st.0
    → IsValidBook ts (place o s size st).0
unfolding place
place-IsValidBook ts none s size (b, off) h v = v
place-IsValidBook ts (some px) s size (b, off) h v = apply-IsValidBook ts b s px size (h px refl) v

pub apply_level-IsValidBook :
    (ts : TickSize) (s : Side) (price size : ℕ) (st : Book × ℕ)
    → IsValidBook ts st.0
    → IsValidBook ts (apply_level ts s price size st).0
unfolding apply_level
apply_level-IsValidBook ts s price size st v =
    place-IsValidBook ts (price_to_px ts price) s size st
      (λ p e. ((price_to_px-microusdc ts price p).0 e).0) v

pub apply_levels-IsValidBook :
    (ts : TickSize) (s : Side) (ls : List RawLevel) (st : Book × ℕ)
    → IsValidBook ts st.0
    → IsValidBook ts (apply_levels ts s ls st).0
unfolding apply_levels
apply_levels-IsValidBook ts s [] st v = v
apply_levels-IsValidBook ts s (l ∷ ls) st v =
    apply_levels-IsValidBook ts s ls _
      (apply_level-IsValidBook ts s l.price_micro l.size_micro st v)

pub apply_batch-IsValidBook :
    (ts : TickSize) (chs : List RawChange) (st : Book × ℕ)
    → IsValidBook ts st.0
    → IsValidBook ts (apply_batch ts chs st).0
unfolding apply_batch
apply_batch-IsValidBook ts [] st v = v
apply_batch-IsValidBook ts (ch ∷ chs) st v =
    apply_batch-IsValidBook ts chs _
      (apply_level-IsValidBook ts (change_side ch) ch.price_micro ch.size_micro st v)

place-count : (o : Option Px) (s : Side) (size : ℕ) (st : Book × ℕ) → st.1 ≤ (place o s size st).1
unfolding place
place-count none s size (b, off) = omega arith
place-count (some px) s size (b, off) = omega arith

-- The count of off-tick prices never falls within a batch.
apply_batch-count :
    (ts : TickSize) (chs : List RawChange) (st : Book × ℕ) → st.1 ≤ (apply_batch ts chs st).1
unfolding apply_batch apply_level
apply_batch-count ts [] st = omega arith
apply_batch-count ts (ch ∷ chs) st =
    let o = price_to_px ts ch.price_micro in
    omega (
      arith,
      place-count o (change_side ch) ch.size_micro st,
      apply_batch-count ts chs (place o (change_side ch) ch.size_micro st),
    )

-- Both ladders are valid, and the book is marked invalid, or is not crossed, has a time of its last
-- update, and owes no snapshot.
pub record IsLive (b : LiveBook) : Type 0 where
  pub book_ok : IsValidBook b.ts b.book
  pub sound :
      (b.valid ≡ false)
      ⊎ ((crossed b.book ≡ false) × (b.last_update ≢ none) × (b.invalid_reason ≡ none))

pub live_new-IsLive : (ts : TickSize) → IsLive (live_new ts)
unfolding live_new
live_new-IsLive ts = record { book_ok = book_new-IsValidBook ts; sound = inl refl }

force_stale-IsLive : (b : LiveBook) → IsLive b → IsLive (force_stale b)
unfolding force_stale
force_stale-IsLive b v = record { book_ok = v.book_ok; sound = inl refl }

-- The book that a snapshot builds, with its count of off-tick levels.
abbrev pub rebuilt : TickSize → List RawLevel → List RawLevel → Book × ℕ
rebuilt ts bids asks =
    apply_levels ts Side.ask asks (apply_levels ts Side.bid bids (book_new ts, 0))

rebuilt-IsValidBook :
    (ts : TickSize) (bids asks : List RawLevel) → IsValidBook ts (rebuilt ts bids asks).0
rebuilt-IsValidBook ts bids asks =
    apply_levels-IsValidBook ts Side.ask asks _
      (apply_levels-IsValidBook ts Side.bid bids (book_new ts, 0) (book_new-IsValidBook ts))

apply_snapshot-IsLive :
    (b : LiveBook) (now : ℕ) (bids asks : List RawLevel) (hash : String)
    → IsLive (apply_snapshot b now bids asks hash).0
unfolding apply_snapshot
apply_snapshot-IsLive b now bids asks hash =
    elim (Bool-cases (crossed (rebuilt b.ts bids asks).0)) [
      | inl e ↦ rw e (record { book_ok = book_new-IsValidBook b.ts; sound = inl refl })
      | inr e ↦ rw e (record {
        book_ok = rebuilt-IsValidBook b.ts bids asks;
        sound = inr (e, (λ f. cc), refl);
      })
    ]

apply_changes-IsLive :
    (b : LiveBook) (now : ℕ) (chs : List RawChange) (hash : Option String)
    → IsLive b
    → IsLive (apply_changes b now chs hash).0
unfolding apply_changes
apply_changes-IsLive b now chs hash v = record {
  book_ok = ground (arith, apply_batch-IsValidBook b.ts chs (b.book, b.off_tick) v.book_ok);
  sound = ground (arith);
}

pub feed_step-IsLive : (b : LiveBook) (e : FeedEvent) → IsLive b → IsLive (feed_step b e)
unfolding feed_step
feed_step-IsLive b (FeedEvent.snapshot now bids asks hash) v =
    apply_snapshot-IsLive b now bids asks hash
feed_step-IsLive b (FeedEvent.changes now chs hash) v = apply_changes-IsLive b now chs hash v
feed_step-IsLive b FeedEvent.lost v = force_stale-IsLive b v

feed-IsLive : (b : LiveBook) (es : List FeedEvent) → IsLive b → IsLive (feed b es)
unfolding feed
feed-IsLive b [] v = v
feed-IsLive b (e ∷ es) v = feed-IsLive (feed_step b e) es (feed_step-IsLive b e v)

-- After any sequence of snapshots, batches of changes and losses of the feed both ladders are valid,
-- and the book is marked invalid, or is not crossed, carries the time of its last update, and owes
-- no snapshot.
pub feed-live_new-IsLive : (ts : TickSize) (es : List FeedEvent) → IsLive (feed (live_new ts) es)
feed-live_new-IsLive ts es = feed-IsLive (live_new ts) es (live_new-IsLive ts)

-- The cases of `apply_changes`.
abbrev pub ChangesOutcome : LiveBook → ℕ → List RawChange → Option String → Type 0
ChangesOutcome b now chs hash =
    let (b', r) = apply_changes b now chs hash in
    let st = apply_batch b.ts chs (b.book, b.off_tick) in
    ((b.valid ≡ false) × (b' ≡ b) × (r ≢ ApplyOutcome.applied))
    ⊎ (((b.valid ≡ true)
          × (16 ≤ st.1)
          × (b'.valid ≡ false)
          × (b'.last_update ≡ b.last_update)
          × (r ≡ ApplyOutcome.needs_resnapshot ResnapshotReason.persistent_off_tick))
        ⊎ (((b.valid ≡ true)
              × (st.1 < 16)
              × (crossed st.0 ≡ true)
              × (b'.valid ≡ false)
              × (b'.last_update ≡ b.last_update)
              × (r ≡ ApplyOutcome.needs_resnapshot ResnapshotReason.crossed_book))
            ⊎ ((b.valid ≡ true)
                × (st.1 < 16)
                × (crossed st.0 ≡ false)
                × (b'.valid ≡ true)
                × (b'.book ≡ st.0)
                × (b'.off_tick ≡ st.1)
                × (b'.last_update ≡ some now)
                × (r ≡ ApplyOutcome.applied))))

-- A batch of changes has one of four outcomes: on an invalid book nothing changes; too many off-tick
-- prices or a crossed book invalidate it for that reason; else the batch is taken in, the book is
-- stamped, and it is neither crossed nor over the threshold.
pub apply_changes-ChangesOutcome :
    (b : LiveBook) (now : ℕ) (chs : List RawChange) (hash : Option String)
    → ChangesOutcome b now chs hash
unfolding apply_changes
apply_changes-ChangesOutcome b now chs hash = ground arith

-- A refused batch is refused again, for the same reason, whatever the next batch holds, and the next
-- batch changes nothing.
pub apply_changes_again :
    (b : LiveBook) (now now' : ℕ) (chs chs' : List RawChange) (hash hash' : Option String)
    (reason : ResnapshotReason)
    → (apply_changes b now chs hash).1 ≡ ApplyOutcome.needs_resnapshot reason
    → apply_changes (apply_changes b now chs hash).0 now' chs' hash'
      ≡ ((apply_changes b now chs hash).0, ApplyOutcome.needs_resnapshot reason)
unfolding apply_changes
apply_changes_again b now now' chs chs' hash hash' reason e = ground arith

-- The cases of `apply_snapshot`.
abbrev pub SnapshotOutcome : LiveBook → ℕ → List RawLevel → List RawLevel → String → Type 0
SnapshotOutcome b now bids asks hash =
    let (b', r) = apply_snapshot b now bids asks hash in
    let st = rebuilt b.ts bids asks in
    ((crossed st.0 ≡ true)
      × (r ≡ ApplyOutcome.needs_resnapshot ResnapshotReason.crossed_book)
      × (b'.valid ≡ false)
      × (b'.book ≡ book_new b.ts)
      × (b'.last_update ≡ b.last_update)
      × (b'.off_tick ≡ b.off_tick))
    ⊎ ((crossed st.0 ≡ false)
        × (r ≡ ApplyOutcome.applied)
        × (b'.valid ≡ true)
        × (b'.book ≡ st.0)
        × (b'.last_update ≡ some now)
        × (b'.off_tick ≡ st.1))

-- A snapshot is refused exactly if the book that it builds is crossed: then the book is emptied and
-- invalid, and keeps its time and its count. Else the built book and its count of off-tick levels
-- replace the old ones, and the book is valid and stamped.
pub apply_snapshot-SnapshotOutcome :
    (b : LiveBook) (now : ℕ) (bids asks : List RawLevel) (hash : String)
    → SnapshotOutcome b now bids asks hash
unfolding apply_snapshot
apply_snapshot-SnapshotOutcome b now bids asks hash =
    elim (Bool-cases (crossed (rebuilt b.ts bids asks).0)) [
      | inl e ↦ ground arith
      | inr e ↦ ground arith
    ]

-- An accepted snapshot keeps its count of off-tick levels: with sixteen of them every batch of
-- changes that follows is refused, an empty one too.
pub off_tick_snapshot_refuses :
    (b : LiveBook) (now now' : ℕ) (bids asks : List RawLevel) (hash : String) (chs : List RawChange)
    (hash' : Option String)
    → (apply_snapshot b now bids asks hash).1 ≡ ApplyOutcome.applied
    → 16 ≤ (rebuilt b.ts bids asks).1
    → (apply_changes (apply_snapshot b now bids asks hash).0 now' chs hash').1
      ≡ ApplyOutcome.needs_resnapshot ResnapshotReason.persistent_off_tick
unfolding apply_snapshot apply_changes
off_tick_snapshot_refuses b now now' bids asks hash chs hash' e h =
    ground (arith, apply_batch-count b.ts chs (rebuilt b.ts bids asks))

-- Once a batch is accepted at `now`, the book is stale from `now + window` on and not before.
pub is_stale-apply_changes :
    (b : LiveBook) (now later window : ℕ) (chs : List RawChange) (hash : Option String)
    → (apply_changes b now chs hash).1 ≡ ApplyOutcome.applied
    → now ≤ later
    → (is_stale (apply_changes b now chs hash).0 later window ≡ true) ↔ (now + window ≤ later)
unfolding apply_changes is_stale
is_stale-apply_changes b now later window chs hash e h = ground arith
