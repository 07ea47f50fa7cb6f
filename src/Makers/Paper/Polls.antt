-- ===== src/Makers/Paper/Polls.antt =====
-- What a poll of the paper venue does to each resting order.
use polybot.Common.{
  ℕ, ◌+◌, ◌≤◌, ◌≡◌, refl, sym, ap, ap₂, subst, ◌∙◌, Bool, true, false, Option, none, some, List, [],
  ◌∷◌, arith, inl, inr, if◌then◌else◌, Bool-cases, ◌==◌, ==_iff, lookup, Above, IsSorted,
}
use polybot.Book.{Book}
use polybot.Instrument.{TokenId}
use polybot.Makers.{OrderId}
use polybot.Makers.Paper.{
  MakerFill, PaperMaker, RestingPaperOrder, ids_of, poll_order, push_fill, poll_each, poll,
}
use polybot.Makers.Paper.Steps.{
  due-left_of, left_of, filled, left_over, due, poll_order_own, poll_order_other, poll_order_pct,
}

-- What a poll makes of the id `j`: its order is filled for what is due, so far less is left of it, and
-- no more is due than was left.
abbrev pub Polled :
    (TokenId → Option Book) → PaperMaker → OrderId → PaperMaker × List MakerFill → Type 0
Polled books v j (v', fs) =
    let q = due books v.taker_fill_pct (lookup v.resting j) in
    (lookup v'.resting j ≡ left_over (lookup v.resting j) q)
    × (filled fs j ≡ q)
    × (q ≤ left_of (lookup v.resting j))

abbrev has_id : List (ℕ × OrderId) → OrderId → Bool
has_id [] j = false
has_id ((s, id) ∷ ids) j = if id == j then true else has_id ids j

abbrev IsDistinct : List (ℕ × OrderId) → Type 0
IsDistinct [] = Unit {0}
IsDistinct ((s, id) ∷ ids) = (has_id ids id ≡ false) × IsDistinct ids

filled-push_fill :
    (f : Option MakerFill) (fs : List MakerFill) (j : OrderId)
    → filled (push_fill f fs) j ≡ filled (push_fill f []) j + filled fs j
unfolding filled
filled-push_fill none fs j = omega arith
filled-push_fill (some f) fs j = ground arith

-- A loop that does not come to an id leaves it alone.
poll_each_absent :
    (books : TokenId → Option Book) (v : PaperMaker) (ids : List (ℕ × OrderId)) (j : OrderId)
    → has_id ids j ≡ false
    → (lookup (poll_each books v ids).0.resting j ≡ lookup v.resting j)
      × (filled (poll_each books v ids).1 j ≡ 0)
unfolding poll_each filled
poll_each_absent books v [] j n = (refl, refl)
poll_each_absent books v ((s, id) ∷ ids) j n =
    let ne = head_ne (id == j) (has_id ids j) n in
    let one = poll_order_other books v id j (lookup v.resting id) ne.0 in
    let rest = poll_each_absent books (poll_order v id (lookup v.resting id) books).0 ids j ne.1 in
    (
      rest.0 ∙ one.0,
      filled-push_fill (poll_order v id (lookup v.resting id) books).1 _ j
          ∙ omega (arith, one.1, rest.1),
    )
  where
    head_ne : (a b : Bool) → (if a then true else b) ≡ false → (a ≡ false) × (b ≡ false)
    head_ne true b h = cc
    head_ne false b h = (refl, h)

later : (a b : Bool) → (if a then true else b) ≡ true → a ≡ false → b ≡ true
later true b h e = cc
later false b h e = h

-- A loop over distinct ids polls each once.
poll_each_present :
    (books : TokenId → Option Book) (v : PaperMaker) (ids : List (ℕ × OrderId)) (j : OrderId)
    → IsDistinct ids
    → has_id ids j ≡ true
    → Polled books v j (poll_each books v ids)
unfolding poll_each filled
poll_each_present books v [] j d h = cc
poll_each_present books v ((s, id) ∷ ids) j d h = elim (Bool-cases (id == j)) [
  | inl e ↦
      subst (λ k. Polled books v k (poll_each books v ((s, id) ∷ ids))) ((==_iff id j).0 e) own
  | inr e ↦
      let other = poll_order_other books v id j (lookup v.resting id) e in
      let next = (poll_order v id (lookup v.resting id) books).0 in
      let rest = poll_each_present books next ids j d.1 (later (id == j) _ h e) in
      let same =
        ap₂ (λ pct o. due books pct o) (poll_order_pct books v id (lookup v.resting id)) other.0 in
      (
        rest.0 ∙ ap₂ left_over other.0 same,
        filled-push_fill (poll_order v id (lookup v.resting id) books).1 _ j
            ∙ omega (arith, other.1, rest.1, same),
        due-left_of books v.taker_fill_pct (lookup v.resting j),
      )
]
  where
    own : Polled books v id (poll_each books v ((s, id) ∷ ids))
    own =
        let one = poll_order_own books v id (lookup v.resting id) refl in
        let rest =
          poll_each_absent books (poll_order v id (lookup v.resting id) books).0 ids id d.0 in
        (
          rest.0 ∙ one.0,
          filled-push_fill (poll_order v id (lookup v.resting id) books).1 _ id
              ∙ omega (arith, one.1, rest.1),
          due-left_of books v.taker_fill_pct (lookup v.resting id),
        )

ids_of-has_id :
    (xs : List (OrderId × RestingPaperOrder)) (j : OrderId)
    → has_id (ids_of xs) j ≡ false
    → lookup xs j ≡ none
unfolding ids_of lookup
ids_of-has_id [] j h = refl
ids_of-has_id ((id, r) ∷ xs) j h = ground (arith, ids_of-has_id xs j)

Above-has_id :
    (k : ℕ) (xs : List (OrderId × RestingPaperOrder)) → Above k xs → has_id (ids_of xs) k ≡ false
unfolding ids_of
Above-has_id k [] h = refl
Above-has_id k ((id, r) ∷ xs) h = ground (arith, Above-has_id k xs h.1)

ids_of-IsDistinct : (xs : List (OrderId × RestingPaperOrder)) → IsSorted xs → IsDistinct (ids_of xs)
unfolding ids_of
ids_of-IsDistinct [] h = tt
ids_of-IsDistinct ((id, r) ∷ xs) h = (Above-has_id id xs h.0, ids_of-IsDistinct xs h.1)

-- With the resting orders in the order of their ids, a poll fills every order for what is due on the book
-- of its token, whatever else rests, which is at most what is left of it, and
-- leaves just what the fills leave.
pub poll-Polled :
    (books : TokenId → Option Book) (v : PaperMaker) (j : OrderId)
    → IsSorted v.resting
    → Polled books v j (poll books v)
unfolding poll
poll-Polled books v j h = elim (Bool-cases (has_id (ids_of v.resting) j)) [
  | inl e ↦ poll_each_present books v (ids_of v.resting) j (ids_of-IsDistinct v.resting h) e
  | inr e ↦
      let kept = poll_each_absent books v (ids_of v.resting) j e in
      let gone = ids_of-has_id v.resting j e in
      (
        kept.0 ∙ gone ∙ sym (ap₂ left_over gone refl),
        kept.1 ∙ sym (ap (due books v.taker_fill_pct) gone),
        due-left_of books v.taker_fill_pct (lookup v.resting j),
      )
]
