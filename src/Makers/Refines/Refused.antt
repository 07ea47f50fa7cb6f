-- ===== src/Makers/Refines/Refused.antt =====
-- A replacement that the paper venue of paper_maker.rs refuses, as quote_manager.rs sees it.
use polybot.Common.{
  ◌≡◌, refl, sym, ap, ◌∙◌, subst, false, Option, none, some, [], ◌∷◌, inl, inr, if◌then◌else◌,
  ==_iff, Result, ok, err, lookup, lookup-remove, ap₂, eq_of_some, arith,
}
use polybot.Book.{Book, book_ts}
use polybot.Book.Best.{IsValidBook}
use polybot.Instrument.{TokenId}
use polybot.Makers.{MakerOrder, VenueError, order_eq}
use polybot.Makers.Quotes.{
  Key, key_of, Resting, Quotes, find_quote, stale_of, Pass, on_place, result_of, cancel_stale,
  place_known, place_all, is_desired, reconcile,
}
use polybot.Makers.Quotes.Keys.{key_eq_self}
use polybot.Makers.Quotes.Converges.{order_of}
use polybot.Makers.Quotes.Settled.{quiet}
use polybot.Makers.Paper.{
  PaperMaker, crossing_liquidity, paper_cancel, paper_place, paper_replace, paper,
}
use polybot.Makers.Paper.Crossing.{IsCrossing, IsPassive, paper_place-Placed}

abbrev finished : Pass PaperMaker → (Quotes × PaperMaker) × Result (Unit {0}) VenueError
finished p = ((p.quotes, p.venue), result_of p.first_err)

one_found : (k : Key) (r : Resting) → find_quote ((k, r) ∷ []) k ≡ some r
unfolding find_quote
one_found k r = ap (λ b. if b then some r else none) (key_eq_self k)

one_kept : (d : MakerOrder) (r : Resting) → stale_of (d ∷ []) ((key_of d, r) ∷ []) ≡ []
unfolding stale_of is_desired
one_kept d r = rw (key_eq_self (key_of d)) refl

module _ (books : TokenId → Option Book) (v : PaperMaker) (r : Resting) (d : MakerOrder) where
  abbrev one_quote : Quotes
  one_quote = (key_of d, r) ∷ []

  abbrev begun : Pass PaperMaker
  begun = record { quotes = one_quote; venue = v; first_err = none }

  -- The replacement goes through to the venue.
  reconcile_one :
      order_eq r.order d ≡ false
      → reconcile (paper books) one_quote v (d ∷ [])
        ≡ finished (on_place begun d (paper_replace books v r.id d))
  unfolding reconcile cancel_stale place_all
  reconcile_one n =
      ap
        (λ ks.
          let p = cancel_stale (paper books) begun ks in
          finished (place_known (paper books) p d (find_quote p.quotes (key_of d))))
        (one_kept d r)
      ∙ ap (λ o. finished (place_known (paper books) begun d o)) (one_found (key_of d) r)
      ∙ ap (λ b. finished (if b then begun else on_place begun d (paper_replace books v r.id d))) n

  refused_place :
      ((b : Book) → books d.token ≡ some b → IsValidBook (book_ts b) b)
      → IsCrossing (books d.token) d
      → (w : PaperMaker) → paper_place books w d ≡ (w, err VenueError.live)
  refused_place valid (p, b, e, c) w = elim (paper_place-Placed books w d valid) [
    | inl (h, f, g) ↦ ap₂ (λ x y. (x, y)) f g
    | inr (h, f, g, i) ↦ absurd (not_both h)
  ]
    where
      not_both : ¬ (IsPassive (books d.token) d)
      not_both (inl h) = cc (p, h)
      not_both (inr (inl h)) = cc (e, h)
      not_both (inr (inr (b', f, z))) = omega (
        arith,
        c,
        z,
        ap (λ (x : Book). crossing_liquidity x d.side d.price) (eq_of_some (sym e ∙ f)),
      )

-- A manager that quotes one order for maker fees and desires another for the same key, at a price that the
-- book would trade with: the pass returns the venue's error, the order that rested is gone from the venue,
-- and the manager still tracks it. If the old order is desired again, then on any books the next pass
-- returns no error and places nothing.
pub refused_replace_lost :
    (books books' : TokenId → Option Book) (v : PaperMaker) (r : Resting) (d : MakerOrder)
    → key_of r.order ≡ key_of d
    → order_eq r.order d ≡ false
    → ((b : Book) → books d.token ≡ some b → IsValidBook (book_ts b) b)
    → IsCrossing (books d.token) d
    → let ((qs, w), res) = reconcile (paper books) ((key_of d, r) ∷ []) v (d ∷ []) in
      (res ≡ err VenueError.live)
      × (lookup w.resting r.id ≡ none)
      × (find_quote qs (key_of d) ≡ some r)
      × (reconcile (paper books') qs w (r.order ∷ []) ≡ ((qs, w), ok tt))
unfolding paper_replace paper_cancel
refused_replace_lost books books' v r d same n valid crossing =
    subst
      (λ (p : (Quotes × PaperMaker) × Result (Unit {0}) VenueError).
        (p.1 ≡ err VenueError.live)
        × (lookup p.0.1.resting r.id ≡ none)
        × (find_quote p.0.0 (key_of d) ≡ some r)
        × (reconcile (paper books') p.0.0 p.0.1 (r.order ∷ []) ≡ (p.0, ok tt)))
      (sym (
        reconcile_one books v r d n
        ∙ ap (λ q. finished (on_place (begun books v r d) d q))
            (refused_place books v r d valid crossing (paper_cancel v r.id).0)))
      (
        refl,
        lookup-remove v.resting r.id r.id
            ∙ ap (λ b. if b then none else lookup v.resting r.id) ((==_iff r.id r.id).1 refl),
        one_found (key_of d) r,
        subst
            (λ k.
              reconcile (paper books') ((k, r) ∷ []) (paper_cancel v r.id).0 (r.order ∷ [])
              ≡ (((k, r) ∷ [], (paper_cancel v r.id).0), ok tt))
            same
            (quiet (paper books') ((key_of r.order, r) ∷ []) (paper_cancel v r.id).0 (r.order ∷ [])
              (one_kept r.order r) (ap order_of (one_found (key_of r.order) r), tt)),
      )
