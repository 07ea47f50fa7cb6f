-- ===== src/Makers/Paper/Keeps.antt =====
-- What every fill of a poll keeps, the poll keeps.
use polybot.Common.{
  ℕ, ◌-◌, ◌≤◌, ◌<◌, ◌≡◌, refl, false, Option, none, some, List, [], ◌∷◌, arith, inl, inr,
  Bool-cases, ◌==◌, lookup, IsSorted, put-IsSorted, remove-IsSorted,
}
use polybot.Num.{Qty}
use polybot.Book.{Book}
use polybot.Instrument.{TokenId}
use polybot.Makers.{OrderId}
use polybot.Makers.Paper.{
  PaperMaker, RestingPaperOrder, after_fill, fill_qty, poll_on, poll_order, poll_each, poll,
}
use polybot.Makers.Paper.Steps.{polled, fill_qty-le}

not_zero : (q : ℕ) → (q == 0) ≡ false → 0 < q
not_zero q e = ground arith

module _ (P : PaperMaker → Type 0)
    (fill : (v : PaperMaker) (id : OrderId) (r : RestingPaperOrder) (q : Qty)
      → lookup v.resting id ≡ some r
      → 0 < q
      → q ≤ r.remaining
      → P v
      → P (after_fill v id r q)) where
  polled_keeps :
      (v : PaperMaker) (id : OrderId) (r : RestingPaperOrder) (q : Qty)
      → lookup v.resting id ≡ some r
      → q ≤ r.remaining
      → P v
      → P (polled v id r q).0
  polled_keeps v id r q e h p = elim (Bool-cases (q == 0)) [
    | inl c ↦ rw c p
    | inr c ↦ rw c (fill v id r q e (not_zero q c) h p)
  ]

  poll_order_keeps :
      (books : TokenId → Option Book) (v : PaperMaker) (id : OrderId) (o : Option RestingPaperOrder)
      → lookup v.resting id ≡ o
      → P v
      → P (poll_order v id o books).0
  poll_order_keeps books v id none e p = p
  poll_order_keeps books v id (some r) e p = on_book (books r.token)
    where
      on_book : (ob : Option Book) → P (poll_on v id r ob).0
      on_book none = p
      on_book (some b) =
          polled_keeps v id r (fill_qty b r v.taker_fill_pct) e (fill_qty-le b r v.taker_fill_pct) p

  poll_each_keeps :
      (books : TokenId → Option Book) (v : PaperMaker) (ids : List (ℕ × OrderId))
      → P v
      → P (poll_each books v ids).0
  unfolding poll_each
  poll_each_keeps books v [] p = p
  poll_each_keeps books v ((s, id) ∷ ids) p =
      poll_each_keeps books (poll_order v id (lookup v.resting id) books).0 ids
        (poll_order_keeps books v id (lookup v.resting id) refl p)

  pub poll_keeps : (books : TokenId → Option Book) (v : PaperMaker) → P v → P (poll books v).0
  unfolding poll
  poll_keeps books v p = poll_each_keeps books v _ p

after_fill-IsSorted :
    (v : PaperMaker) (id : OrderId) (r : RestingPaperOrder) (q : Qty)
    → IsSorted v.resting
    → IsSorted (after_fill v id r q).resting
after_fill-IsSorted v id r q h = elim (Bool-cases ((r.remaining - q) == 0)) [
  | inl c ↦ rw c (remove-IsSorted v.resting id h)
  | inr c ↦ rw c (put-IsSorted v.resting id _ h)
]

-- A poll keeps the order of the ids.
pub poll-IsSorted :
    (books : TokenId → Option Book) (v : PaperMaker)
    → IsSorted v.resting
    → IsSorted (poll books v).0.resting
poll-IsSorted books v h =
    poll_keeps (λ w. IsSorted w.resting) (λ w id r q e k l s. after_fill-IsSorted w id r q s) books
      v h

pub poll_pct :
    (books : TokenId → Option Book) (v : PaperMaker)
    → (poll books v).0.taker_fill_pct ≡ v.taker_fill_pct
poll_pct books v =
    poll_keeps (λ w. w.taker_fill_pct ≡ v.taker_fill_pct) (λ w id r q e k l s. s) books v refl
