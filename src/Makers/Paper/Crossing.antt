-- ===== src/Makers/Paper/Crossing.antt =====
-- Which paper orders are refused and which the book fills.
use polybot.Common.{
  ℕ, zero, suc, ◌+◌, ◌<◌, ◌≡◌, ◌↔◌, ◌⊎◌, refl, Bool, true, false, ◌&&◌, ◌==◌, Option, none, some,
  List, [], arith, inl, inr, if◌then◌else◌, Bool-cases, unwrap_or, Result, ok, err, lookup,
  lookup-put,
}
use polybot.Num.{TickSize, Px, Qty, levels}
use polybot.Book.{Side, Ladder, Book, book_ts, collect, iter_from_best}
use polybot.Book.Best.{IsValid, IsValidBook}
use polybot.Book.Steps.{depth}
use polybot.Book.Iter.{collect-depth}
use polybot.Book.Depth.{StartsAt, depth-StartsAt}
use polybot.Instrument.{TokenId}
use polybot.Makers.{MakerOrder, OrderId, VenueError}
use polybot.Makers.Paper.{
  PaperMaker, RestingPaperOrder, sum_reached, reaches, reaches_best, opposing, crossing_liquidity,
  would_cross, rest_order, paper_place,
}

-- The sum over the levels is not 0 exactly if the first is reached.
sum_starts :
    (l : Ladder) (s : Side) (price : Px) (o : Option Px) (xs : List (Px × Qty))
    → StartsAt l o xs
    → (0 < sum_reached s price xs) ↔ (reaches_best s price o ≡ true)
unfolding sum_reached
sum_starts l s price none xs e = rw e (λ h. absurd (omega arith), λ h. absurd cc)
sum_starts l s price (some b) xs (rest, e, q) = elim (Bool-cases (reaches s price b)) [
  | inl c ↦ rw e (rw (c, sum_reached) (λ h. refl, λ h. omega arith))
  | inr c ↦ rw e (rw (c, sum_reached) (λ h. absurd (omega arith), λ h. absurd cc))
]

crossing_at :
    (l : Ladder) (s : Side) (price : Px)
    → IsValid l
    → (0 < sum_reached s price (unwrap_or (collect (levels l.ts) l (iter_from_best l)) []))
      ↔ (reaches_best s price l.best ≡ true)
crossing_at l s price v =
    rw (collect-depth l v) (sum_starts l s price l.best (depth l) (depth-StartsAt l v))

none_crosses : (n : ℕ) (b : Bool) → (0 < n → b ≡ true) → b ≡ false → n ≡ 0
none_crosses zero b h e = refl
none_crosses (suc n) b h e = absurd (cc (h (omega arith), e))

opposing-IsValid : (ts : TickSize) (b : Book) (s : Side) → IsValidBook ts b → IsValid (opposing b s)
opposing-IsValid ts b Side.bid v = v.asks_ok
opposing-IsValid ts b Side.ask v = v.bids_ok

-- On a book whose ladders are valid, there is liquidity that crosses a price exactly if an order for
-- maker fees only would be refused at that price.
pub crossing_liquidity-would_cross :
    (ts : TickSize) (b : Book) (s : Side) (price : Px)
    → IsValidBook ts b
    → (0 < crossing_liquidity b s price) ↔ (would_cross (some b) s price ≡ true)
unfolding crossing_liquidity
crossing_liquidity-would_cross ts b s price v =
    crossing_at (opposing b s) s price (opposing-IsValid ts b s v)

-- Nothing that trades rests under the order's price on the other side: the order is not for maker fees
-- only, or there is no book, or the book has no liquidity that crosses the price.
abbrev pub IsPassive : Option Book → MakerOrder → Type 0
IsPassive ob o =
    (o.post_only ≡ false)
    ⊎ (ob ≡ none)
    ⊎ ((b : Book) × (ob ≡ some b) × (crossing_liquidity b o.side o.price ≡ 0))

-- The book of the order would trade with it.
abbrev pub IsCrossing : Option Book → MakerOrder → Type 0
IsCrossing ob o =
    (o.post_only ≡ true) × (b : Book) × (ob ≡ some b) × (0 < crossing_liquidity b o.side o.price)

abbrev pub resting_of : OrderId → MakerOrder → RestingPaperOrder
resting_of id o = record {
  token = o.token;
  side = o.side;
  price = o.price;
  remaining = o.size;
  seq = id;
}

-- What `place` leaves of `v`: nothing changes, or the order alone is added under the next id.
abbrev pub Placed :
    PaperMaker → Option Book → MakerOrder → PaperMaker × Result OrderId VenueError → Type 0
Placed v ob o (v', res) =
    (IsCrossing ob o × (v' ≡ v) × (res ≡ err VenueError.live))
    ⊎ (IsPassive ob o
        × (res ≡ ok v'.next_id)
        × (v'.next_id ≡ v.next_id + 1)
        × ((id : OrderId)
            → lookup v'.resting id
              ≡ (if v'.next_id == id then some (resting_of v'.next_id o) else lookup v.resting id)))

rest_order-Placed :
    (v : PaperMaker) (ob : Option Book) (o : MakerOrder)
    → IsPassive ob o
    → Placed v ob o (rest_order v o)
unfolding rest_order
rest_order-Placed v ob o h = inr (h, refl, refl, λ id. lookup-put v.resting (v.next_id + 1) id _)

place_cases :
    (v : PaperMaker) (ob : Option Book) (o : MakerOrder) (c : Bool)
    → (c ≡ true → IsCrossing ob o)
    → (c ≡ false → IsPassive ob o)
    → Placed v ob o (if c then (v, err VenueError.live) else rest_order v o)
place_cases v ob o true f g = inl (f refl, refl, refl)
place_cases v ob o false f g = rest_order-Placed v ob o (g refl)

-- The liquidity that crosses the price is what refuses an order on a book.
abbrev IsSoundAt : MakerOrder → Book → Type 0
IsSoundAt o b =
    (0 < crossing_liquidity b o.side o.price) ↔ (would_cross (some b) o.side o.price ≡ true)

both_true : (a b : Bool) → (a && b) ≡ true → (a ≡ true) × (b ≡ true)
both_true true b h = (refl, h)
both_true false b h = cc

refused-IsCrossing :
    (ob : Option Book) (o : MakerOrder)
    → ((b : Book) → ob ≡ some b → IsSoundAt o b)
    → (o.post_only && would_cross ob o.side o.price) ≡ true
    → IsCrossing ob o
refused-IsCrossing none o h e = absurd (cc (both_true o.post_only false e).1)
refused-IsCrossing (some b) o h e =
    let both = both_true _ _ e in (both.0, b, refl, (h b refl).1 both.1)

taken-IsPassive :
    (ob : Option Book) (o : MakerOrder) (p : Bool)
    → o.post_only ≡ p
    → ((b : Book) → ob ≡ some b → IsSoundAt o b)
    → (p && would_cross ob o.side o.price) ≡ false
    → IsPassive ob o
taken-IsPassive ob o false f h e = inl f
taken-IsPassive none o true f h e = inr (inl refl)
taken-IsPassive (some b) o true f h e = inr (inr (b, refl, none_crosses _ _ (h b refl).0 e))

-- Where every book is valid, `place` refuses an order for maker fees only if the book has liquidity that
-- crosses its price, and then changes nothing. Else the order rests under the next id, which is returned,
-- and no other order changes.
pub paper_place-Placed :
    (books : TokenId → Option Book) (v : PaperMaker) (o : MakerOrder)
    → ((b : Book) → books o.token ≡ some b → IsValidBook (book_ts b) b)
    → Placed v (books o.token) o (paper_place books v o)
unfolding paper_place
paper_place-Placed books v o valid =
    place_cases v (books o.token) o (o.post_only && would_cross (books o.token) o.side o.price)
      (refused-IsCrossing (books o.token) o sound)
      (taken-IsPassive (books o.token) o o.post_only refl sound)
  where
    sound : (b : Book) → books o.token ≡ some b → IsSoundAt o b
    sound b e = crossing_liquidity-would_cross (book_ts b) b o.side o.price (valid b e)
