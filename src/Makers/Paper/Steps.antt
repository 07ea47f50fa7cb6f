-- ===== src/Makers/Paper/Steps.antt =====
-- One order in a poll of the paper venue.
use polybot.Common.{
  ℕ, ◌+◌, ◌-◌, ◌≤◌, ◌<◌, ◌≡◌, refl, sym, ◌∙◌, false, Option, none, some, List, [], ◌∷◌, arith, inl,
  inr, if◌then◌else◌, Bool-cases, ◌==◌, ==_iff, lookup, lookup-put, lookup-remove,
}
use polybot.Num.{Qty}
use polybot.Book.{Book}
use polybot.Instrument.{TokenId}
use polybot.Makers.{OrderId}
use polybot.Makers.Paper.{
  MakerFill, PaperMaker, RestingPaperOrder, taker_fill_qty, after_fill, fill_qty, fill_of, poll_on,
  poll_order, push_fill,
}

taker_fill_qty-le : (n pct : ℕ) → taker_fill_qty n pct ≤ n
unfolding taker_fill_qty
taker_fill_qty-le n pct = ground arith

taker_fill_qty_pos : (n pct : ℕ) → 0 < n → 0 < pct → 0 < taker_fill_qty n pct
unfolding taker_fill_qty
taker_fill_qty_pos n pct h k = ground arith

pub fill_qty-le : (b : Book) (r : RestingPaperOrder) (pct : ℕ) → fill_qty b r pct ≤ r.remaining
unfolding fill_qty
fill_qty-le b r pct = ground (arith, taker_fill_qty-le r.remaining pct)

pub fill_qty_pos :
    (b : Book) (r : RestingPaperOrder) (pct : ℕ) → 0 < r.remaining → 0 < pct → 0 < fill_qty b r pct
unfolding fill_qty
fill_qty_pos b r pct h k = ground (arith, taker_fill_qty_pos r.remaining pct h k)

-- What rests under an id.
abbrev pub left_of : Option RestingPaperOrder → ℕ
left_of none = 0
left_of (some r) = r.remaining

-- The quantity of the fills of an id.
unfoldable pub filled : List MakerFill → OrderId → ℕ
filled [] id = 0
filled (f ∷ fs) id = let rest = filled fs id in if f.order_id == id then f.qty + rest else rest

-- An order of which only the quantity left differs.
abbrev pub with_left : RestingPaperOrder → ℕ → RestingPaperOrder
with_left r n = record r { remaining = n }

lookup-after_fill :
    (v : PaperMaker) (id j : OrderId) (r : RestingPaperOrder) (q : Qty)
    → lookup (after_fill v id r q).resting j ≡ (
        if id == j
        then (if (r.remaining - q) == 0 then none else some (with_left r (r.remaining - q)))
        else lookup v.resting j)
lookup-after_fill v id j r q =
    ground (
      arith,
      lookup-put v.resting id j (with_left r (r.remaining - q)),
      lookup-remove v.resting id j,
    )

-- What is left of an order after fills of `q`.
abbrev pub left_over : Option RestingPaperOrder → ℕ → Option RestingPaperOrder
left_over none q = none
left_over (some r) q =
    if q == 0
    then some r
    else if (r.remaining - q) == 0
    then none
    else some (with_left r (r.remaining - q))

-- What a poll fills of an order whose book is the first argument.
abbrev pub due_on : Option Book → RestingPaperOrder → ℕ → Qty
due_on none r pct = 0
due_on (some b) r pct = fill_qty b r pct

abbrev pub due : (TokenId → Option Book) → ℕ → Option RestingPaperOrder → Qty
due books pct none = 0
due books pct (some r) = due_on (books r.token) r pct

-- The poll of one order for `q`, seen at its own id and at another.
module _ (v : PaperMaker) (id : OrderId) (r : RestingPaperOrder) (q : Qty) where
  abbrev pub polled : PaperMaker × Option MakerFill
  polled = if q == 0 then (v, none) else (after_fill v id r q, some (fill_of v id r q))

  polled_own :
      lookup v.resting id ≡ some r
      → (lookup polled.0.resting id ≡ left_over (some r) q)
        × (filled (push_fill polled.1 []) id ≡ q)
  unfolding filled
  polled_own e = elim (Bool-cases (q == 0)) [
    | inl c ↦ rw c (e, sym ((==_iff q 0).0 c))
    | inr c ↦ rw c (
      lookup-after_fill v id id r q ∙ ground (arith, (==_iff id id).1 refl),
      ground (arith, (==_iff id id).1 refl),
    )
  ]

  polled_other :
      (j : OrderId)
      → (id == j) ≡ false
      → (lookup polled.0.resting j ≡ lookup v.resting j) × (filled (push_fill polled.1 []) j ≡ 0)
  unfolding filled
  polled_other j n = elim (Bool-cases (q == 0)) [
    | inl c ↦ rw c (refl, refl)
    | inr c ↦ rw c (lookup-after_fill v id j r q ∙ rw n refl, rw n refl)
  ]

  polled_pct : polled.0.taker_fill_pct ≡ v.taker_fill_pct
  polled_pct = elim (Bool-cases (q == 0)) [ inl c ↦ rw c refl | inr c ↦ rw c refl ]

poll_on_own :
    (v : PaperMaker) (id : OrderId) (r : RestingPaperOrder) (ob : Option Book)
    → lookup v.resting id ≡ some r
    → (lookup (poll_on v id r ob).0.resting id ≡ left_over (some r) (due_on ob r v.taker_fill_pct))
      × (filled (push_fill (poll_on v id r ob).1 []) id ≡ due_on ob r v.taker_fill_pct)
unfolding filled
poll_on_own v id r none e = (e, refl)
poll_on_own v id r (some b) e = polled_own v id r (fill_qty b r v.taker_fill_pct) e

pub poll_order_own :
    (books : TokenId → Option Book) (v : PaperMaker) (id : OrderId) (o : Option RestingPaperOrder)
    → lookup v.resting id ≡ o
    → (lookup (poll_order v id o books).0.resting id ≡ left_over o (due books v.taker_fill_pct o))
      × (filled (push_fill (poll_order v id o books).1 []) id ≡ due books v.taker_fill_pct o)
unfolding filled
poll_order_own books v id none e = (e, refl)
poll_order_own books v id (some r) e = poll_on_own v id r (books r.token) e

poll_on_other :
    (v : PaperMaker) (id j : OrderId) (r : RestingPaperOrder) (ob : Option Book)
    → (id == j) ≡ false
    → (lookup (poll_on v id r ob).0.resting j ≡ lookup v.resting j)
      × (filled (push_fill (poll_on v id r ob).1 []) j ≡ 0)
unfolding filled
poll_on_other v id j r none n = (refl, refl)
poll_on_other v id j r (some b) n = polled_other v id r (fill_qty b r v.taker_fill_pct) j n

pub poll_order_other :
    (books : TokenId → Option Book) (v : PaperMaker) (id j : OrderId) (o : Option RestingPaperOrder)
    → (id == j) ≡ false
    → (lookup (poll_order v id o books).0.resting j ≡ lookup v.resting j)
      × (filled (push_fill (poll_order v id o books).1 []) j ≡ 0)
unfolding filled
poll_order_other books v id j none n = (refl, refl)
poll_order_other books v id j (some r) n = poll_on_other v id j r (books r.token) n

poll_on_pct :
    (v : PaperMaker) (id : OrderId) (r : RestingPaperOrder) (ob : Option Book)
    → (poll_on v id r ob).0.taker_fill_pct ≡ v.taker_fill_pct
poll_on_pct v id r none = refl
poll_on_pct v id r (some b) = polled_pct v id r (fill_qty b r v.taker_fill_pct)

pub poll_order_pct :
    (books : TokenId → Option Book) (v : PaperMaker) (id : OrderId) (o : Option RestingPaperOrder)
    → (poll_order v id o books).0.taker_fill_pct ≡ v.taker_fill_pct
poll_order_pct books v id none = refl
poll_order_pct books v id (some r) = poll_on_pct v id r (books r.token)

due_on-le : (ob : Option Book) (r : RestingPaperOrder) (pct : ℕ) → due_on ob r pct ≤ r.remaining
due_on-le none r pct = omega arith
due_on-le (some b) r pct = fill_qty-le b r pct

-- No more is due than is left.
pub due-left_of :
    (books : TokenId → Option Book) (pct : ℕ) (o : Option RestingPaperOrder)
    → due books pct o ≤ left_of o
due-left_of books pct none = omega arith
due-left_of books pct (some r) = due_on-le (books r.token) r pct
