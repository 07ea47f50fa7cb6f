-- ===== src/Makers/Paper.antt =====
-- crates/execution/src/paper_maker.rs and the `MakerFill` of fills.rs: the paper venue of resting
-- orders. The hash map is an association list in the order of its ids; the id `paper-{n}` is the
-- number n, and so is the trade id `paper-fill-{n}`. A sum of quantities does not overflow here.
pub mod Crossing
pub mod Steps
pub mod Polls
pub mod Keeps
pub mod Emptied
use polybot.Common.{
  ℕ, ◌+◌, ◌-◌, ◌*◌, ◌/◌, ◌%◌, ◌^◌, min, max, Bool, true, false, ◌&&◌, ◌||◌, Option, none, some,
  List, [], ◌∷◌, ltb, leb, ◌==◌, if◌then◌else◌, Result, ok, err, unwrap_or, lookup, put, remove,
}
use polybot.Num.{Px, Qty, levels}
use polybot.Book.{Side, Ladder, Book, collect, iter_from_best}
use polybot.Instrument.{TokenId}
use polybot.Makers.{MakerOrder, MakerVenue, OpenOrder, OrderId, VenueError}

pub record MakerFill : Type 0 where
  pub order_id : OrderId
  pub token : TokenId
  pub qty : Qty
  pub px : Px
  pub side : Option Side
  pub trade_id : ℕ

pub record RestingPaperOrder : Type 0 where
  pub token : TokenId
  pub side : Side
  pub price : Px
  pub remaining : Qty
  pub seq : ℕ

-- `PaperMakerVenue` without its source of books.
pub record PaperMaker : Type 0 where
  pub resting : List (OrderId × RestingPaperOrder)
  pub next_id : ℕ
  pub next_fill : ℕ
  pub taker_fill_pct : ℕ

-- `PaperMakerVenue::new`
abbrev pub paper_new : PaperMaker
paper_new = record { resting = []; next_id = 0; next_fill = 0; taker_fill_pct = 0 }

unfoldable pub with_taker_fill_pct : PaperMaker → ℕ → PaperMaker
with_taker_fill_pct v pct = record v { taker_fill_pct = min pct 100 }

-- The ids, in the order of the map's keys.
unfoldable pub ids_of : List (OrderId × RestingPaperOrder) → List (ℕ × OrderId)
ids_of [] = []
ids_of ((id, r) ∷ rs) = (r.seq, id) ∷ ids_of rs

abbrev pub ordered_ids : PaperMaker → List (ℕ × OrderId)
ordered_ids v = ids_of v.resting

-- A bid at `price` reaches an ask at `level`, and an ask a bid.
abbrev pub reaches : Side → Px → Px → Bool
reaches Side.bid price level = leb level price
reaches Side.ask price level = leb price level

-- The `take_while`, `map` and `sum` of `crossing_liquidity`.
unfoldable pub sum_reached : Side → Px → List (Px × Qty) → ℕ
sum_reached side price [] = 0
sum_reached side price ((p, q) ∷ ls) =
    let rest = sum_reached side price ls in if reaches side price p then q + rest else 0

abbrev pub opposing : Book → Side → Ladder
opposing b Side.bid = b.asks
opposing b Side.ask = b.bids

unfoldable pub crossing_liquidity : Book → Side → Px → ℕ
crossing_liquidity b side price =
    let l = opposing b side in
    sum_reached side price (unwrap_or (collect (levels l.ts) l (iter_from_best l)) [])

-- The product is a u128; the cast to u64 wraps.
unfoldable pub taker_fill_qty : ℕ → ℕ → ℕ
taker_fill_qty remaining pct =
    if pct == 0 || remaining == 0 then 0 else min (max (remaining * pct / 100 % 2 ^ 64) 1) remaining

-- The test against the best opposing level, `is_some_and`.
abbrev pub reaches_best : Side → Px → Option Px → Bool
reaches_best side price none = false
reaches_best side price (some level) = reaches side price level

-- `would_cross`, with no book to prove it.
abbrev pub would_cross : Option Book → Side → Px → Bool
would_cross none side price = false
would_cross (some b) side price = reaches_best side price (opposing b side).best

-- The order rests under a new id.
unfoldable pub rest_order : PaperMaker → MakerOrder → PaperMaker × Result OrderId VenueError
rest_order v o =
    let seq = v.next_id + 1 in
    (
      record v {
        next_id = seq;
        resting = put v.resting seq (record {
          token = o.token;
          side = o.side;
          price = o.price;
          remaining = o.size;
          seq = seq;
        });
      },
      ok seq,
    )

unfoldable pub paper_cancel : PaperMaker → OrderId → PaperMaker × Result (Unit {0}) VenueError
paper_cancel v id = (record v { resting = remove v.resting id }, ok tt)

abbrev pub open_of : OrderId → RestingPaperOrder → OpenOrder
open_of id r = record {
  id = id;
  token = r.token;
  side = r.side;
  price = r.price;
  size = r.remaining;
}

-- `filter_map` over the ids.
unfoldable pub open_each : PaperMaker → List (ℕ × OrderId) → List OpenOrder
open_each v [] = []
open_each v ((seq, id) ∷ ids) = elim (lookup v.resting id) [
  | none ↦ open_each v ids
  | some r ↦ open_of id r ∷ open_each v ids
]

unfoldable pub paper_open_orders : PaperMaker → PaperMaker × Result (List OpenOrder) VenueError
paper_open_orders v = (v, ok (open_each v (ordered_ids v)))

-- The order after a fill of `filled`.
abbrev pub after_fill : PaperMaker → OrderId → RestingPaperOrder → Qty → PaperMaker
after_fill v id r filled = record v {
  next_fill = v.next_fill + 1;
  resting =
      if (r.remaining - filled) == 0
      then remove v.resting id
      else put v.resting id (record r { remaining = r.remaining - filled });
}

-- The fill of one poll on the book.
unfoldable pub fill_qty : Book → RestingPaperOrder → ℕ → Qty
fill_qty b r pct =
    let adverse = min (crossing_liquidity b r.side r.price) r.remaining in
    if ltb 0 adverse then adverse else taker_fill_qty r.remaining pct

abbrev pub fill_of : PaperMaker → OrderId → RestingPaperOrder → Qty → MakerFill
fill_of v id r filled = record {
  order_id = id;
  token = r.token;
  px = r.price;
  qty = filled;
  side = some r.side;
  trade_id = v.next_fill + 1;
}

-- The poll of an order, on the book of its token.
abbrev pub poll_on :
    PaperMaker → OrderId → RestingPaperOrder → Option Book → PaperMaker × Option MakerFill
poll_on v id r none = (v, none)
poll_on v id r (some b) =
    let filled = fill_qty b r v.taker_fill_pct in
    if filled == 0 then (v, none) else (after_fill v id r filled, some (fill_of v id r filled))

abbrev pub poll_order :
    PaperMaker
    → OrderId
    → Option RestingPaperOrder
    → (TokenId → Option Book)
    → PaperMaker × Option MakerFill
poll_order v id none books = (v, none)
poll_order v id (some r) books = poll_on v id r (books r.token)

abbrev pub push_fill : Option MakerFill → List MakerFill → List MakerFill
push_fill none fs = fs
push_fill (some f) fs = f ∷ fs

module _ (books : TokenId → Option Book) where
  unfoldable pub paper_place : PaperMaker → MakerOrder → PaperMaker × Result OrderId VenueError
  paper_place v o =
      if o.post_only && would_cross (books o.token) o.side o.price
      then (v, err VenueError.live)
      else rest_order v o

  unfoldable pub paper_replace :
      PaperMaker → OrderId → MakerOrder → PaperMaker × Result OrderId VenueError
  paper_replace v id o = paper_place (paper_cancel v id).0 o

  -- The loop of `poll`.
  unfoldable pub poll_each : PaperMaker → List (ℕ × OrderId) → PaperMaker × List MakerFill
  poll_each v [] = (v, [])
  poll_each v ((seq, id) ∷ ids) =
      let one = poll_order v id (lookup v.resting id) books in
      let rest = poll_each one.0 ids in (rest.0, push_fill one.1 rest.1)

  unfoldable pub poll : PaperMaker → PaperMaker × List MakerFill
  poll v = poll_each v (ordered_ids v)

  -- The implementation of the trait.
  abbrev pub paper : MakerVenue
  paper = record {
    State = PaperMaker;
    place = paper_place;
    cancel = paper_cancel;
    replace = paper_replace;
    open_orders = paper_open_orders;
  }
