-- ===== src/Makers/Refines/Fills.antt =====
-- `note_fill` of quote_manager.rs over the fills of a poll of paper_maker.rs.
use polybot.Common.{
  ℕ, ◌-◌, ◌≤◌, ◌≡◌, ◌⊎◌, refl, sym, ap, ◌∙◌, subst, true, false, Option, none, some, List, [], ◌∷◌,
  inl, inr, if◌then◌else◌, Bool-cases, Option-cases, ◌==◌, ==_iff, eq_of_some, lookup, put,
  lookup-put, put-IsSorted,
}
use polybot.Num.{Qty}
use polybot.Book.{Book}
use polybot.Instrument.{TokenId}
use polybot.Makers.{OrderId}
use polybot.Makers.Quotes.{
  Key, key_eq, key_of, Resting, Quotes, find_quote, set_quote, find_id, filled_quote, note_fill,
}
use polybot.Makers.Quotes.Keys.{
  key_eq_iff, find_quote-set_quote, find_quote-set_quote_self, find_quote-set_quote_other,
}
use polybot.Makers.Paper.{
  MakerFill, PaperMaker, RestingPaperOrder, after_fill, fill_qty, poll_on, poll_order, push_fill,
  poll_each, poll,
}
use polybot.Makers.Paper.Crossing.{resting_of}
use polybot.Makers.Paper.Steps.{with_left, polled}
use polybot.Makers.Refines.Unique.{
  Unique, set_quote-Unique, drop_quote-Unique, find_id-found, find_id-none,
}
use polybot.Makers.Refines.{Agrees, drop-Agrees, id_ne, key_ne, some_inv}

abbrev resized : Resting → ℕ → Resting
resized r n = record r { order = record r.order { size = n } }

module _ (qs : Quotes) (rs : List (OrderId × RestingPaperOrder)) (next : ℕ) (a : Agrees qs rs next)
    (k : Key) (r : Resting) (found : find_quote qs k ≡ some r) (n : ℕ) where
  abbrev left : RestingPaperOrder
  left = with_left (resting_of r.id r.order) n

  resize_tracked :
      (k' : Key) (q : Resting)
      → find_quote (set_quote qs k (resized r n)) k' ≡ some q
      → (key_of q.order ≡ k') × (lookup (put rs r.id left) q.id ≡ some (resting_of q.id q.order))
  resize_tracked k' q f =
      elim (some_inv (key_eq k k') (resized r n) q (find_quote qs k')
        (sym (find_quote-set_quote qs k k' (resized r n)) ∙ f)) [
          | inl (b, e) ↦
              subst
                (λ (p : Resting).
                  (key_of p.order ≡ k')
                  × (lookup (put rs r.id left) p.id ≡ some (resting_of p.id p.order)))
                e
                (
                  (a.tracked k r found).0 ∙ (key_eq_iff k k').0 b,
                  lookup-put rs r.id r.id left
                      ∙ ap (λ c. if c then some left else lookup rs r.id)
                          ((==_iff r.id r.id).1 refl),
                )
          | inr (b, e) ↦
              let old = a.tracked k' q e in
              (
                old.0,
                lookup-put rs r.id q.id left
                    ∙ ap (λ c. if c then some left else lookup rs q.id)
                        (id_ne qs rs next a k r found k' q e b)
                    ∙ old.1,
              )
        ]

  resize_rests :
      (id : OrderId) (o : RestingPaperOrder)
      → lookup (put rs r.id left) id ≡ some o
      → (q : Resting) × (find_quote (set_quote qs k (resized r n)) (o.token, o.side) ≡ some q)
        × (q.id ≡ id)
  resize_rests id o f =
      elim (some_inv (r.id == id) left o (lookup rs id) (sym (lookup-put rs r.id id left) ∙ f)) [
        | inl (b, e) ↦
            let keys : k ≡ (o.token, o.side) =
              sym (a.tracked k r found).0 ∙ ap (λ (p : RestingPaperOrder). (p.token, p.side)) e in
            (
              resized r n,
              ap (find_quote (set_quote qs k (resized r n))) (sym keys)
                  ∙ find_quote-set_quote_self qs k (resized r n),
              (==_iff r.id id).0 b,
            )
        | inr (b, e) ↦
            let (q, h, i) = a.rests id o e in
            (
              q,
              find_quote-set_quote_other qs k (o.token, o.side) (resized r n)
                    (key_ne qs rs next a k r found (o.token, o.side) q h
                      (ap (λ j. r.id == j) i ∙ b))
                  ∙ h,
              i,
            )
      ]

  resize-Agrees : Agrees (set_quote qs k (resized r n)) (put rs r.id left) next
  resize-Agrees = record {
    tracked = resize_tracked;
    rests = resize_rests;
    fresh = λ id o f. elim (some_inv (r.id == id) left o _ (sym (lookup-put rs r.id id left) ∙ f)) [
      | inl (b, e) ↦
          subst (λ j. j ≤ next) ((==_iff r.id id).0 b) (a.fresh r.id _ (a.tracked k r found).1)
      | inr (b, e) ↦ a.fresh id o e
    ];
    sorted = put-IsSorted rs r.id left a.sorted;
  }

-- The manager and the venue agree.
abbrev pub InStep : Quotes → PaperMaker → Type 0
InStep qs v = Unique qs × Agrees qs v.resting v.next_id

-- The quote of a resting order, as `find_id` finds it.
found_quote :
    (qs : Quotes) (v : PaperMaker) (id : OrderId) (o : RestingPaperOrder)
    → InStep qs v
    → lookup v.resting id ≡ some o
    → (k : Key) × (r : Resting) × (find_id qs id ≡ some (k, r))
      × (find_quote qs k ≡ some r)
      × (r.id ≡ id)
      × (o ≡ resting_of r.id r.order)
found_quote qs v id o (u, a) e = elim (Option-cases (find_id qs id)) [
  | inl n ↦ let (r, f, i) = a.rests id o e in absurd (find_id-none qs id (o.token, o.side) r n f i)
  | inr ((k, r), f) ↦
      let (g, i) = find_id-found qs id k r u f in
      (k, r, f, g, i, eq_of_some (sym e ∙ ap (lookup v.resting) (sym i) ∙ (a.tracked k r g).1))
]

-- One fill, as the manager notes it and as the venue books it.
fill-InStep :
    (qs : Quotes) (v : PaperMaker) (id : OrderId) (o : RestingPaperOrder) (q : Qty)
    → InStep qs v
    → lookup v.resting id ≡ some o
    → InStep (note_fill qs id q) (after_fill v id o q)
unfolding note_fill
fill-InStep qs v id o q h e =
    let (k, r, f, g, i, s) = found_quote qs v id o h e in
    subst (λ p. InStep (filled_quote qs q p) (after_fill v id o q)) (sym f)
      (subst (λ j. InStep (filled_quote qs q (some (k, r))) (after_fill v j o q)) i
        (subst (λ p. InStep (filled_quote qs q (some (k, r))) (after_fill v r.id p q)) (sym s)
          (both k r g (Bool-cases ((r.order.size - q) == 0)))))
  where
    both :
        (k : Key) (r : Resting)
        → find_quote qs k ≡ some r
        → (((r.order.size - q) == 0) ≡ true) ⊎ (((r.order.size - q) == 0) ≡ false)
        → InStep (filled_quote qs q (some (k, r))) (after_fill v r.id (resting_of r.id r.order) q)
    both k r g (inl b) =
        rw b (drop_quote-Unique qs k h.0, drop-Agrees qs v.resting v.next_id h.1 k r g)
    both k r g (inr b) = rw b (
      set_quote-Unique qs k (resized r (r.order.size - q)) h.0,
      resize-Agrees qs v.resting v.next_id h.1 k r g (r.order.size - q),
    )

-- `note_fill` for each fill.
unfoldable pub note_fills : Quotes → List MakerFill → Quotes
note_fills qs [] = qs
note_fills qs (f ∷ fs) = note_fills (note_fill qs f.order_id f.qty) fs

polled-InStep :
    (qs : Quotes) (v : PaperMaker) (id : OrderId) (o : RestingPaperOrder) (q : Qty)
    → InStep qs v
    → lookup v.resting id ≡ some o
    → InStep (note_fills qs (push_fill (polled v id o q).1 [])) (polled v id o q).0
unfolding note_fills
polled-InStep qs v id o q h e = elim (Bool-cases (q == 0)) [
  | inl c ↦ rw c h
  | inr c ↦ rw c (fill-InStep qs v id o q h e)
]

poll_order-InStep :
    (books : TokenId → Option Book) (qs : Quotes) (v : PaperMaker) (id : OrderId)
    (o : Option RestingPaperOrder)
    → InStep qs v
    → lookup v.resting id ≡ o
    → InStep (note_fills qs (push_fill (poll_order v id o books).1 [])) (poll_order v id o books).0
unfolding note_fills
poll_order-InStep books qs v id none h e = h
poll_order-InStep books qs v id (some r) h e = on_book (books r.token)
  where
    on_book :
        (ob : Option Book)
        → InStep (note_fills qs (push_fill (poll_on v id r ob).1 [])) (poll_on v id r ob).0
    on_book none = h
    on_book (some b) = polled-InStep qs v id r (fill_qty b r v.taker_fill_pct) h e

note_fills-push_fill :
    (qs : Quotes) (f : Option MakerFill) (fs : List MakerFill)
    → note_fills qs (push_fill f fs) ≡ note_fills (note_fills qs (push_fill f [])) fs
unfolding note_fills
note_fills-push_fill qs none fs = refl
note_fills-push_fill qs (some f) fs = refl

poll_each-InStep :
    (books : TokenId → Option Book) (qs : Quotes) (v : PaperMaker) (ids : List (ℕ × OrderId))
    → InStep qs v
    → InStep (note_fills qs (poll_each books v ids).1) (poll_each books v ids).0
unfolding poll_each note_fills
poll_each-InStep books qs v [] h = h
poll_each-InStep books qs v ((s, id) ∷ ids) h =
    let one = poll_order v id (lookup v.resting id) books in
    subst (λ qs'. InStep qs' (poll_each books one.0 ids).0)
      (sym (note_fills-push_fill qs one.1 (poll_each books one.0 ids).1))
      (poll_each-InStep books (note_fills qs (push_fill one.1 [])) one.0 ids
        (poll_order-InStep books qs v id (lookup v.resting id) h refl))

-- If the manager tracks what rests, it still does once every fill of a poll is noted.
pub poll-InStep :
    (books : TokenId → Option Book) (qs : Quotes) (v : PaperMaker)
    → InStep qs v
    → InStep (note_fills qs (poll books v).1) (poll books v).0
unfolding poll
poll-InStep books qs v h = poll_each-InStep books qs v _ h
