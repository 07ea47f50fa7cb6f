-- ===== src/Exec/Venue/Fills.antt =====
-- What a fill-and-kill order takes from a book on the paper venue.
use polybot.Common.{
  ℕ, ◌+◌, ◌-◌, ◌<◌, min, ◌≡◌, refl, Bool, true, false, Option, none, some, List, [], ◌∷◌, arith,
  inl, inr, ◌⊎◌, Bool-cases, ◌==◌, ==_iff, ◌||◌, not, if◌then◌else◌, Result, ok, err,
}
use polybot.Num.{Px, Qty}
use polybot.Book.{Book, book_ts}
use polybot.Book.Best.{IsValid, IsValidBook}
use polybot.Book.Steps.{depth}
use polybot.Book.Iter.{collect-depth}
use polybot.Instrument.{TokenId}
use polybot.Engine.{Action}
use polybot.Makers.{VenueError}
use polybot.Exec.{Order}
use polybot.Exec.Venue.{
  Fill, SubmitOutcome, taken_side, within, fill_level, fill_levels, fill_book, fill_now,
}

-- What the levels offer until the first that is beyond the limit.
unfoldable pub offered : Order → List (Px × Qty) → ℕ
offered o [] = 0
offered o ((px, avail) ∷ ls) =
    let rest = offered o ls in if within o.action o.limit_px px then avail + rest else 0

unfoldable pub total_qty : List Fill → ℕ
total_qty [] = 0
total_qty (f ∷ fs) = f.qty + total_qty fs

-- Every fill is at a price within the limit, for a quantity that is not 0, with the cash and the fee of
-- that level.
abbrev pub AllOwn : Order → List Fill → Type 0
AllOwn o [] = Unit {0}
AllOwn o (f ∷ fs) =
    ((within o.action o.limit_px f.px ≡ true) × (0 < f.qty) × (f ≡ fill_level o f.px f.qty))
    × AllOwn o fs

abbrev Taken : Order → ℕ → List (Px × Qty) → List Fill × ℕ → Type 0
Taken o n ls (fs, rem) = (total_qty fs + rem ≡ n) × (rem ≡ n - offered o ls) × AllOwn o fs

fill_level-fields :
    (o : Order) (px : Px) (q : Qty) → ((fill_level o px q).px ≡ px) × ((fill_level o px q).qty ≡ q)
unfolding fill_level
fill_level-fields o px q = (refl, refl)

not_zero : (q : ℕ) → (q == 0) ≡ false → 0 < q
not_zero q e = ground arith

own_one :
    (o : Order) (px : Px) (q : Qty)
    → within o.action o.limit_px px ≡ true
    → 0 < q
    → let f = fill_level o px q in
      (within o.action o.limit_px f.px ≡ true) × (0 < f.qty) × (f ≡ fill_level o f.px f.qty)
unfolding fill_level
own_one o px q w p = (w, p, refl)

fill_levels-Taken : (o : Order) (n : ℕ) (ls : List (Px × Qty)) → Taken o n ls (fill_levels o n ls)
unfolding fill_levels offered total_qty
fill_levels-Taken o n [] = (omega arith, omega arith, tt)
fill_levels-Taken o n ((px, avail) ∷ ls) =
    cases (within o.action o.limit_px px) refl (Bool-cases (n == 0)) (Bool-cases (min n avail == 0))
      (fill_levels-Taken o (n - min n avail) ls)
  where
    cases :
        (w : Bool)
        → within o.action o.limit_px px ≡ w
        → ((n == 0) ≡ true) ⊎ ((n == 0) ≡ false)
        → ((min n avail == 0) ≡ true) ⊎ ((min n avail == 0) ≡ false)
        → Taken o (n - min n avail) ls (fill_levels o (n - min n avail) ls)
        → let rest = fill_levels o (n - min n avail) ls in
          let res : List Fill × ℕ =
            if not w || n == 0
            then ([], n)
            else if min n avail == 0
            then rest
            else (fill_level o px (min n avail) ∷ rest.0, rest.1) in
          (total_qty res.0 + res.1 ≡ n)
          × (res.1 ≡ n - (if w then avail + offered o ls else 0))
          × AllOwn o res.0
    cases false w z t ih = (omega arith, omega arith, tt)
    cases true w (inl z) t ih = rw z (omega arith, omega (arith, (==_iff n 0).0 z), tt)
    cases true w (inr z) (inl t) ih =
        rw (z, t)
          (
            omega (arith, ih.0, (==_iff (min n avail) 0).0 t),
            omega (arith, ih.1, (==_iff (min n avail) 0).0 t),
            ih.2,
          )
    cases true w (inr z) (inr t) ih =
        rw (z, t)
          (
            omega (arith, ih.0, (fill_level-fields o px (min n avail)).1),
            omega (arith, ih.1),
            (own_one o px (min n avail) w (not_zero (min n avail) t), ih.2),
          )

-- What the order gets on a book: nothing without one, and else all that the levels within its limit offer,
-- up to its quantity, in fills of its own.
abbrev pub Filled : Order → Option Book → Result SubmitOutcome VenueError → Type 0
Filled o none res = res ≡ err (VenueError.book_unavailable o.token)
Filled o (some b) res =
    (out : SubmitOutcome) × (res ≡ ok out)
    × (out.filled ≡ min o.qty (offered o (depth (taken_side b o.action))))
    × (total_qty out.fills ≡ out.filled)
    × AllOwn o out.fills

taken_side-IsValid : (b : Book) (a : Action) → IsValidBook (book_ts b) b → IsValid (taken_side b a)
taken_side-IsValid b Action.buy v = v.asks_ok
taken_side-IsValid b Action.sell v = v.bids_ok

fill_book-Filled :
    (o : Order) (b : Book)
    → IsValidBook (book_ts b) b
    → let out = fill_book o b in
      (out.filled ≡ min o.qty (offered o (depth (taken_side b o.action))))
      × (total_qty out.fills ≡ out.filled)
      × AllOwn o out.fills
unfolding fill_book
fill_book-Filled o b v =
    let l = taken_side b o.action in
    rw (collect-depth l (taken_side-IsValid b o.action v))
      (totals (depth l) (fill_levels-Taken o o.qty (depth l)))
  where
    totals :
        (xs : List (Px × Qty))
        → Taken o o.qty xs (fill_levels o o.qty xs)
        → let r = fill_levels o o.qty xs in
          (o.qty - r.1 ≡ min o.qty (offered o xs)) × (total_qty r.0 ≡ o.qty - r.1) × AllOwn o r.0
    totals xs (a, b, c) = (omega (arith, b), omega (arith, a), c)

-- Where the book of its token is valid or missing, an order is refused without a book, and else filled for
-- all that the book offers within its limit, up to its quantity; the quantities of the fills add up to
-- that, and every fill is at a price within the limit, not empty, and has the cash and fee of its level.
pub fill_now-Filled :
    (books : TokenId → Option Book) (o : Order)
    → ((b : Book) → books o.token ≡ some b → IsValidBook (book_ts b) b)
    → Filled o (books o.token) (fill_now books o)
unfolding fill_now
fill_now-Filled books o valid = on_book (books o.token) valid
  where
    on_book :
        (ob : Option Book)
        → ((b : Book) → ob ≡ some b → IsValidBook (book_ts b) b)
        → Filled o ob (elim ob [
          | none ↦ err (VenueError.book_unavailable o.token)
          | some b ↦ ok (fill_book o b)
        ])
    on_book none valid = refl
    on_book (some b) valid =
        let (filled, total, own) = fill_book-Filled o b (valid b refl) in
        (fill_book o b, refl, filled, total, own)
