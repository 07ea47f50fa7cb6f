-- ===== src/Makers/Refines/Passes.antt =====
-- `reconcile` of quote_manager.rs on the paper venue of paper_maker.rs.
use polybot.Common.{
  ◌+◌, ◌≡◌, refl, sym, ap, ◌∙◌, Bool, true, false, ◌&&◌, Option, none, some, List, [], ◌∷◌,
  if◌then◌else◌, ok, err, lookup-put, put-IsSorted,
}
use polybot.Book.{Book}
use polybot.Instrument.{TokenId}
use polybot.Makers.{MakerOrder, VenueError, order_eq}
use polybot.Makers.Quotes.{
  Key, key_eq, key_of, Resting, Quotes, find_quote, set_quote, drop_quote, stale_of, Pass, on_place,
  place_known, place_all, pass_of, reconcile,
}
use polybot.Makers.Quotes.Keys.{key_eq_self, find_quote-set_quote, find_quote-drop_quote}
use polybot.Makers.Quotes.Converges.{no_error, no_error_of, all_placed}
use polybot.Makers.Paper.{
  PaperMaker, would_cross, rest_order, paper_cancel, paper_place, paper_replace, paper,
}
use polybot.Makers.Paper.Crossing.{resting_of}
use polybot.Makers.Refines.{place-Agrees, same_quotes-Agrees}
use polybot.Makers.Refines.Unique.{Unique, set_quote-Unique}
use polybot.Makers.Refines.Fills.{InStep}
use polybot.Makers.Refines.Cancels.{cancel-InStep, stale-AllTracked, cancel_stale-InStep}

rest-InStep :
    (qs : Quotes) (w : PaperMaker) (d : MakerOrder)
    → InStep qs w
    → find_quote qs (key_of d) ≡ none
    → InStep (set_quote qs (key_of d) (record { id = w.next_id + 1; order = d })) (rest_order w d).0
unfolding rest_order
rest-InStep qs w d (u, a) free = (
  set_quote-Unique qs (key_of d) (record { id = w.next_id + 1; order = d }) u,
  place-Agrees qs w.resting _ w.next_id d a free
      (put-IsSorted w.resting (w.next_id + 1) (resting_of (w.next_id + 1) d) a.sorted)
      (λ id. lookup-put w.resting (w.next_id + 1) id (resting_of (w.next_id + 1) d)),
)

-- A placement without an error, from quotes of which one is taken for the key.
on_place-InStep :
    (p : Pass PaperMaker) (qs : Quotes) (w : PaperMaker) (d : MakerOrder) (c : Bool)
    → InStep qs w
    → find_quote qs (key_of d) ≡ none
    → Unique p.quotes
    → ((q : Resting) (k : Key)
        → find_quote (set_quote p.quotes (key_of d) q) k ≡ find_quote (set_quote qs (key_of d) q) k)
    → let p' = on_place p d (if c then (w, err VenueError.live) else rest_order w d) in
      p'.first_err ≡ none → InStep p'.quotes p'.venue
unfolding rest_order
on_place-InStep p qs w d true h free u same e = absurd (no_error p.first_err VenueError.live e)
on_place-InStep p qs w d false h free u same e =
    let q : Resting = record { id = w.next_id + 1; order = d } in
    (
      set_quote-Unique p.quotes (key_of d) q u,
      same_quotes-Agrees (set_quote qs (key_of d) q) (set_quote p.quotes (key_of d) q) _ _ (same q)
          (rest-InStep qs w d h free).1,
    )

module _ (books : TokenId → Option Book) where
  place_known-InStep :
      (p : Pass PaperMaker) (d : MakerOrder) (o : Option Resting)
      → InStep p.quotes p.venue
      → find_quote p.quotes (key_of d) ≡ o
      → (place_known (paper books) p d o).first_err ≡ none
      → InStep (place_known (paper books) p d o).quotes (place_known (paper books) p d o).venue
  unfolding paper_place paper_replace paper_cancel
  place_known-InStep p d none h f e =
      on_place-InStep p p.quotes p.venue d
        (d.post_only && would_cross (books d.token) d.side d.price) h f h.0 (λ q k. refl) e
  place_known-InStep p d (some r) h f e = chosen (order_eq r.order d) e
    where
      same :
          (q : Resting) (k : Key)
          → find_quote (set_quote p.quotes (key_of d) q) k
            ≡ find_quote (set_quote (drop_quote p.quotes (key_of d)) (key_of d) q) k
      same q k =
          find_quote-set_quote p.quotes (key_of d) k q
          ∙ merged (key_eq (key_of d) k)
          ∙ ap (λ o. if key_eq (key_of d) k then some q else o)
              (sym (find_quote-drop_quote p.quotes (key_of d) k))
          ∙ sym (find_quote-set_quote (drop_quote p.quotes (key_of d)) (key_of d) k q)
        where
          merged :
              (b : Bool)
              → (if b then some q else find_quote p.quotes k)
                ≡ (if b then some q else if b then none else find_quote p.quotes k)
          merged true = refl
          merged false = refl

      dropped : find_quote (drop_quote p.quotes (key_of d)) (key_of d) ≡ none
      dropped =
          find_quote-drop_quote p.quotes (key_of d) (key_of d)
          ∙ ap (λ b. if b then none else find_quote p.quotes (key_of d)) (key_eq_self (key_of d))

      chosen :
          (b : Bool)
          → let p' = if b then p else on_place p d (paper_replace books p.venue r.id d) in
            p'.first_err ≡ none → InStep p'.quotes p'.venue
      chosen true e = h
      chosen false e =
          on_place-InStep p (drop_quote p.quotes (key_of d)) (paper_cancel p.venue r.id).0 d
            (d.post_only && would_cross (books d.token) d.side d.price)
            (cancel-InStep p.quotes p.venue (key_of d) r h f) dropped h.0 same e

  place_all-InStep :
      (p : Pass PaperMaker) (ds : List MakerOrder)
      → InStep p.quotes p.venue
      → (place_all (paper books) p ds).first_err ≡ none
      → InStep (place_all (paper books) p ds).quotes (place_all (paper books) p ds).venue
  unfolding place_all
  place_all-InStep p [] h e = h
  place_all-InStep p (d ∷ ds) h e =
      let next = place_known (paper books) p d (find_quote p.quotes (key_of d)) in
      place_all-InStep next ds
        (place_known-InStep p d (find_quote p.quotes (key_of d)) h refl
          (all_placed (paper books) next ds (key_of d) e).0)
        e

  -- If the manager tracks what rests on the paper venue, it still does after a pass without an error.
  pub reconcile-InStep :
      (qs : Quotes) (v : PaperMaker) (ds : List MakerOrder)
      → InStep qs v
      → (reconcile (paper books) qs v ds).1 ≡ ok tt
      → let (qs', v') = (reconcile (paper books) qs v ds).0 in InStep qs' v'
  unfolding reconcile
  reconcile-InStep qs v ds h e =
      place_all-InStep _ ds
        (cancel_stale-InStep books (record { quotes = qs; venue = v; first_err = none })
          (stale_of ds qs) h (stale-AllTracked ds qs h.0))
        (no_error_of (pass_of (paper books) qs v ds).first_err e)
