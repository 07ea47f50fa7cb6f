-- ===== src/Makers/Tests.antt =====
-- A quote manager on a paper venue, at concrete books.
use polybot.Common.{
  ℕ, ◌<◌, ◌≡◌, refl, arith, true, Option, none, some, List, [], ◌∷◌, ok, err, lookup, put, subst,
  eq_of_some,
}
use polybot.Num.{TickSize, levels, px_new}
use polybot.Book.{
  Side, Book, book_new, book_ts, apply, ladder_new, ladder_set, rescan_from, collect,
  iter_from_best, iter_next, next_loop, item_at, advance,
}
use polybot.Book.Best.{IsValidBook, book_new-IsValidBook, apply-IsValidBook}
use polybot.Instrument.{TokenId}
use polybot.Makers.{MakerOrder, OrderType, OrderId, VenueError, order_eq}
use polybot.Makers.Quotes.{
  Key, Resting, Quotes, find_quote, set_quote, is_desired, stale_of, cancel_stale, place_all,
  reconcile, cancel_all,
}
use polybot.Makers.Quotes.Converges.{order_at, last_desired, reconcile-desired}
use polybot.Makers.Quotes.Settled.{reconcile_again}
use polybot.Makers.Paper.{
  PaperMaker, RestingPaperOrder, paper_new, with_taker_fill_pct, rest_order, paper_place, paper,
  poll, poll_each, ids_of, fill_qty, taker_fill_qty, crossing_liquidity, sum_reached,
}
use polybot.Makers.Paper.Crossing.{Placed, crossing_liquidity-would_cross, paper_place-Placed}
use polybot.Makers.Paper.Polls.{Polled, poll-Polled}
use polybot.Makers.Paper.Emptied.{polls, polls_emptied}
use polybot.Makers.Refines.Fills.{InStep, note_fills}
use polybot.Makers.Refines.Cancels.{cancel_all_empties}
use polybot.Makers.Refines.Runs.{Reached, Reached-InStep}
use polybot.Makers.Refines.Refused.{refused_replace_lost}

-- A bid at 45 and an ask at 55.
market : Book
market = apply (apply (book_new TickSize.cent) Side.bid 45 10) Side.ask 55 20

market-IsValidBook : IsValidBook (book_ts market) market
unfolding market apply book_new ladder_new ladder_set levels
market-IsValidBook = apply-IsValidBook TickSize.cent _ Side.ask 55 20 (omega arith) (
    apply-IsValidBook TickSize.cent _ Side.bid 45 10 (omega arith)
      (book_new-IsValidBook TickSize.cent))

abbrev books : TokenId → Option Book
books t = some market

abbrev bid_at : ℕ → MakerOrder
bid_at p = record {
  token = 1;
  side = Side.bid;
  price = p;
  size = 3;
  order_type = OrderType.gtc;
  post_only = true;
}

abbrev fresh : PaperMaker
fresh = record { resting = []; next_id = 0; next_fill = 0; taker_fill_pct = 50 }

abbrev two : List MakerOrder
two = bid_at 44 ∷ record (bid_at 50) { side = Side.ask } ∷ []

first_pass : (reconcile (paper books) [] fresh two).1 ≡ ok tt
unfolding reconcile stale_of cancel_stale place_all find_quote set_quote paper_place rest_order
    market apply book_new ladder_new ladder_set levels put
first_pass = refl

reconcile-desired_example :
    order_at (reconcile (paper books) [] fresh two).0.0 (1, Side.bid)
    ≡ last_desired two (1, Side.bid) none
reconcile-desired_example = reconcile-desired (paper books) [] fresh two (1, Side.bid) first_pass

reconcile_again_example :
    let (qs', v') = (reconcile (paper books) [] fresh two).0 in
    reconcile (paper books) qs' v' two ≡ ((qs', v'), ok tt)
unfolding is_desired
reconcile_again_example = reconcile_again (paper books) [] fresh two (refl, (refl, tt)) first_pass

market_valid : (b : Book) → some market ≡ some b → IsValidBook (book_ts b) b
market_valid b e = subst (λ c. IsValidBook (book_ts c) c) (eq_of_some e) market-IsValidBook

paper_place-Placed_example :
    Placed fresh (books 1) (bid_at 60) (paper_place books fresh (bid_at 60))
paper_place-Placed_example = paper_place-Placed books fresh (bid_at 60) market_valid

-- The venue after a bid at 44, which half of the flow fills.
abbrev resting_bid : RestingPaperOrder
resting_bid = record { token = 1; side = Side.bid; price = 44; remaining = 3; seq = 1 }

abbrev one_bid : PaperMaker
one_bid = record {
  resting = (1, resting_bid) ∷ [];
  next_id = 1;
  next_fill = 0;
  taker_fill_pct = 50;
}

one_poll : lookup (poll books one_bid).0.resting 1 ≡ some (record resting_bid { remaining = 2 })
unfolding poll poll_each ids_of lookup fill_qty taker_fill_qty crossing_liquidity sum_reached market
    apply book_new ladder_new ladder_set rescan_from collect iter_from_best iter_next next_loop
    item_at advance levels px_new put
one_poll = refl

poll-Polled_example : Polled books one_bid 1 (poll books one_bid)
poll-Polled_example = poll-Polled books one_bid 1 (tt, tt)

polls_emptied_example : lookup (polls (books ∷ books ∷ books ∷ []) one_bid).resting 1 ≡ none
unfolding lookup
polls_emptied_example =
    polls_emptied (books ∷ books ∷ books ∷ []) one_bid 1 resting_bid (tt, tt) refl (omega arith)
      (omega arith) ((market, refl), ((market, refl), ((market, refl), tt))) (omega arith)

passed :
    Reached
      (reconcile (paper books) [] (with_taker_fill_pct paper_new 50) two).0.0
      (reconcile (paper books) [] (with_taker_fill_pct paper_new 50) two).0.1
unfolding reconcile stale_of cancel_stale place_all find_quote set_quote paper_place rest_order
    market apply book_new ladder_new ladder_set levels put with_taker_fill_pct
passed = Reached.passed books two (Reached.started 50) refl

abbrev after_pass : Quotes × PaperMaker
after_pass = (reconcile (paper books) [] (with_taker_fill_pct paper_new 50) two).0

Reached-InStep_example :
    InStep (note_fills after_pass.0 (poll books after_pass.1).1) (poll books after_pass.1).0
Reached-InStep_example = Reached-InStep (Reached.polled books passed)

cancel_all_empties_example :
    let ((qs', v'), res) = cancel_all (paper books) after_pass.0 after_pass.1 in
    (res ≡ ok tt)
    × ((k : Key) → find_quote qs' k ≡ none)
    × ((id : OrderId) → lookup v'.resting id ≡ none)
cancel_all_empties_example =
    cancel_all_empties books after_pass.0 after_pass.1 (Reached-InStep passed)

market_crosses : 0 < crossing_liquidity market Side.bid 60
unfolding market apply book_new ladder_new ladder_set levels
market_crosses =
    (crossing_liquidity-would_cross (book_ts market) market Side.bid 60 market-IsValidBook).1 refl

abbrev old_bid : Resting
old_bid = record { id = 1; order = bid_at 44 }

refused_replace_lost_example :
    let ((qs, w), res) =
      reconcile (paper books) (((1, Side.bid), old_bid) ∷ []) one_bid (bid_at 60 ∷ []) in
    (res ≡ err VenueError.live)
    × (lookup w.resting 1 ≡ none)
    × (find_quote qs (1, Side.bid) ≡ some old_bid)
    × (reconcile (paper books) qs w (bid_at 44 ∷ []) ≡ ((qs, w), ok tt))
unfolding order_eq
refused_replace_lost_example =
    refused_replace_lost books books one_bid old_bid (bid_at 60) refl refl market_valid
      (refl, market, refl, market_crosses)
