-- ===== src/Book.antt =====
-- crates/core/src/book.rs: the dense price ladder with its cached best level, its iterator, and the
-- two-sided book. An index out of range, a panic of the source, reads 0 here and writes nothing;
-- `Book.Best` says when that cannot be.
pub mod Ranks
pub mod Best
pub mod Steps
pub mod Iter
pub mod Depth
mod Tests
use polybot.Common.{
  ℕ, zero, suc, ◌+◌, ◌-◌, Bool, true, false, Option, none, some, List, [], ◌∷◌, Result, ltb, ◌==◌,
  if◌then◌else◌, get_or, set, replicate, to_option, and_then,
}
use polybot.Num.{TickSize, Px, Qty, levels, px_new}

pub data Side : Type 0 where
  bid ask : Side

pub record Ladder : Type 0 where
  pub ts : TickSize
  pub side : Side
  pub lvls : List ℕ
  pub best : Option Px

-- `Ladder::new`
unfoldable pub ladder_new : TickSize → Side → Ladder
ladder_new ts side = record {
  ts = ts;
  side = side;
  lvls = replicate (levels ts + 1) 0;
  best = none;
}

abbrev pub qty_at : Ladder → Px → Qty
qty_at l px = get_or l.lvls px 0

-- The closure `improves` of `Ladder::set`.
abbrev pub improves : Side → ℕ → ℕ → Bool
improves Side.bid cand cur = ltb cur cand
improves Side.ask cand cur = ltb cand cur

-- `(1..=n).rev().find(|&i| lvls[i] > 0)`
unfoldable pub find_down : List ℕ → ℕ → Option ℕ
find_down lvls zero = none
find_down lvls (suc i) = if ltb 0 (get_or lvls (suc i) 0) then some (suc i) else find_down lvls i

-- `(i..i + n).find(|&i| lvls[i] > 0)`
unfoldable pub find_up : List ℕ → ℕ → ℕ → Option ℕ
find_up lvls zero i = none
find_up lvls (suc n) i = if ltb 0 (get_or lvls i 0) then some i else find_up lvls n (i + 1)

abbrev pub find_worse : Side → List ℕ → ℕ → ℕ → Option ℕ
find_worse Side.bid lvls top from = find_down lvls (from - 1)
find_worse Side.ask lvls top from = find_up lvls (top - (from + 1)) (from + 1)

unfoldable pub rescan_from : Ladder → ℕ → Option Px
unfolding find_down find_up
rescan_from l from =
    and_then (find_worse l.side l.lvls (levels l.ts) from) (λ i. to_option (px_new i l.ts))

-- `self.best.is_none_or(|b| improves(t, b.get()))`
abbrev pub takes_best : Side → Option Px → ℕ → Bool
takes_best side none t = true
takes_best side (some b) t = improves side t b

-- `self.best.map(Px::get) == Some(t)`
abbrev pub is_best : Option Px → ℕ → Bool
is_best none t = false
is_best (some b) t = b == t

-- `Ladder::set`
unfoldable pub ladder_set : Ladder → Px → Qty → Ladder
ladder_set l px qty =
    let written : Ladder = record l { lvls = set l.lvls px qty } in
    record written {
      best =
          if ltb 0 qty
          then (if takes_best l.side l.best px then some px else l.best)
          else if is_best l.best px
          then rescan_from written px
          else l.best;
    }

-- `LadderIter`, whose borrowed ladder is an argument of its operations.
pub record LadderIter : Type 0 where
  pub cur : Option ℕ
  pub ascending : Bool

abbrev pub is_ask : Side → Bool
is_ask Side.ask = true
is_ask Side.bid = false

unfoldable pub iter_from_best : Ladder → LadderIter
iter_from_best l = record { cur = l.best; ascending = is_ask l.side }

-- The non-empty level at `t`.
unfoldable pub item_at : Ladder → ℕ → Option (Px × Qty)
item_at l t =
    if ltb 0 (get_or l.lvls t 0)
    then and_then (to_option (px_new t l.ts)) (λ p. some (p, get_or l.lvls t 0))
    else none

-- The tick after `t`.
unfoldable pub advance : Ladder → Bool → ℕ → Option ℕ
advance l true t = if ltb (t + 1) (levels l.ts) then some (t + 1) else none
advance l false t = if ltb 1 t then some (t - 1) else none

-- The `loop` of `LadderIter::next`: the item found and the new `cur`; the outer `none` is spent fuel.
unfoldable pub next_loop : ℕ → Ladder → Bool → ℕ → Option (Option (Px × Qty) × Option ℕ)
next_loop zero l asc t = none
next_loop (suc fuel) l asc t = elim (item_at l t) [
  | some it ↦ some (some it, advance l asc t)
  | none ↦ elim (advance l asc t) [ none ↦ some (none, none) | some u ↦ next_loop fuel l asc u ]
]

-- `LadderIter::next`, with fuel for every level.
unfoldable pub iter_next : Ladder → LadderIter → Option (Option (Px × Qty) × LadderIter)
iter_next l it = elim it.cur [
  | none ↦ some (none, it)
  | some t ↦ elim (next_loop (levels l.ts) l it.ascending t) [
    | none ↦ none
    | some (item, cur') ↦ some (item, record it { cur = cur' })
  ]
]

-- `collect` on the iterator.
unfoldable pub collect : ℕ → Ladder → LadderIter → Option (List (Px × Qty))
collect zero l it = none
collect (suc fuel) l it = elim (iter_next l it) [
  | none ↦ none
  | some (none, it') ↦ some []
  | some (some item, it') ↦ elim (collect fuel l it') [
    | none ↦ none
    | some rest ↦ some (item ∷ rest)
  ]
]

pub record Book : Type 0 where
  pub bids : Ladder
  pub asks : Ladder

-- `Book::new`
unfoldable pub book_new : TickSize → Book
book_new ts = record { bids = ladder_new ts Side.bid; asks = ladder_new ts Side.ask }

-- `Book::ts`
abbrev pub book_ts : Book → TickSize
book_ts b = b.bids.ts

-- `Book::apply`
unfoldable pub apply : Book → Side → Px → Qty → Book
apply b Side.bid px qty = record b { bids = ladder_set b.bids px qty }
apply b Side.ask px qty = record b { asks = ladder_set b.asks px qty }
