-- ===== src/Makers/Quotes/Settled.antt =====
-- A pass of `reconcile` behind one that has settled.
use polybot.Common.{
  ◌≡◌, refl, sym, ap, ◌∙◌, Bool, true, false, Option, none, some, List, [], ◌∷◌, if◌then◌else◌,
  Bool-cases, inl, inr, ok,
}
use polybot.Makers.{MakerOrder, MakerVenue, order_eq}
use polybot.Makers.Quotes.{
  Key, key_eq, key_of, Resting, Quotes, find_quote, is_desired, stale_of, Pass, place_known,
  place_all, cancel_stale, result_of, reconcile,
}
use polybot.Makers.Quotes.Keys.{key_eq_self, order_eq_self}
use polybot.Makers.Quotes.Converges.{
  order_of, order_at, last_desired, last_desired-none, reconcile-desired,
}

abbrev pub AllOrders : (MakerOrder → Type 0) → List MakerOrder → Type 0
AllOrders P [] = Unit {0}
AllOrders P (d ∷ ds) = P d × AllOrders P ds

-- No two orders are for one key.
abbrev pub DistinctKeys : List MakerOrder → Type 0
DistinctKeys [] = Unit {0}
DistinctKeys (d ∷ ds) = (is_desired ds (key_of d) ≡ false) × DistinctKeys ds

last_desired_distinct :
    (ds : List MakerOrder)
    → DistinctKeys ds
    → AllOrders (λ d. (o : Option MakerOrder) → last_desired ds (key_of d) o ≡ some d) ds
unfolding last_desired
last_desired_distinct [] h = tt
last_desired_distinct (d ∷ ds) h = (
  λ o. rw (key_eq_self (key_of d)) (last_desired-none ds (key_of d) (some d) h.0),
  weaken ds _ _ (λ c k o. k _) (last_desired_distinct ds h.1),
)
  where
    weaken :
        (ds : List MakerOrder) (P Q : MakerOrder → Type 0)
        → ((c : MakerOrder) → P c → Q c)
        → AllOrders P ds
        → AllOrders Q ds
    weaken [] P Q f a = tt
    weaken (c ∷ cs) P Q f a = (f c a.0, weaken cs P Q f a.1)

untracked : (o : Option Resting) → order_of o ≡ none → o ≡ none
untracked none h = refl
untracked (some r) h = cc

-- Nothing is stale if every key that is tracked is desired.
none_stale :
    (ds : List MakerOrder) (qs : Quotes)
    → ((k : Key) → is_desired ds k ≡ false → find_quote qs k ≡ none)
    → stale_of ds qs ≡ []
unfolding stale_of find_quote
none_stale ds [] h = refl
none_stale ds ((k, r) ∷ qs) h = elim (Bool-cases (is_desired ds k)) [
  | inl b ↦ rw b (none_stale ds qs (λ j e. behind (key_eq k j) (find_quote qs j) (h j e)))
  | inr b ↦ cc (sym (ap (λ c. if c then some r else find_quote qs k) (key_eq_self k)) ∙ h k b)
]
  where
    behind : (b : Bool) (o : Option Resting) → (if b then some r else o) ≡ none → o ≡ none
    behind true o h = cc
    behind false o h = h

module _ (venue : MakerVenue) where
  open venue use {State}

  known_kept :
      (p : Pass State) (d : MakerOrder) (o : Option Resting)
      → order_of o ≡ some d
      → place_known venue p d o ≡ p
  known_kept p d none h = cc
  known_kept p d (some r) h =
      let same : r.order ≡ d = cc h in rw (ap (λ c. order_eq c d) same ∙ order_eq_self d) refl

  all_kept :
      (p : Pass State) (ds : List MakerOrder)
      → AllOrders (λ d. order_at p.quotes (key_of d) ≡ some d) ds
      → place_all venue p ds ≡ p
  unfolding place_all
  all_kept p [] h = refl
  all_kept p (d ∷ ds) h = ap (λ q. place_all venue q ds) (known_kept p d _ h.0) ∙ all_kept p ds h.1

  pub quiet :
      (qs : Quotes) (v : State) (ds : List MakerOrder)
      → stale_of ds qs ≡ []
      → AllOrders (λ d. order_at qs (key_of d) ≡ some d) ds
      → reconcile venue qs v ds ≡ ((qs, v), ok tt)
  unfolding reconcile cancel_stale
  quiet qs v ds h a =
      ap (λ (p : Pass State). ((p.quotes, p.venue), result_of p.first_err))
        (ap
            (λ ks.
              place_all venue
                (cancel_stale venue (record { quotes = qs; venue = v; first_err = none }) ks) ds)
            h
          ∙ all_kept (record { quotes = qs; venue = v; first_err = none }) ds a)

  -- On any venue, after a pass without an error over orders for distinct keys, a second pass over the same
  -- orders calls nothing: it returns no error and leaves the manager and the venue as they are.
  pub reconcile_again :
      (qs : Quotes) (v : State) (ds : List MakerOrder)
      → DistinctKeys ds
      → (reconcile venue qs v ds).1 ≡ ok tt
      → let (qs', v') = (reconcile venue qs v ds).0 in
        reconcile venue qs' v' ds ≡ ((qs', v'), ok tt)
  reconcile_again qs v ds distinct h =
      quiet (reconcile venue qs v ds).0.0 (reconcile venue qs v ds).0.1 ds
        (none_stale ds (reconcile venue qs v ds).0.0 (λ k e.
          untracked _ (reconcile-desired venue qs v ds k h ∙ last_desired-none ds k none e)))
        (settled ds (λ d. reconcile-desired venue qs v ds (key_of d) h)
          (last_desired_distinct ds distinct))
    where
      settled :
          (cs : List MakerOrder)
          → ((d : MakerOrder)
              → order_at (reconcile venue qs v ds).0.0 (key_of d) ≡ last_desired ds (key_of d) none)
          → AllOrders (λ d. (o : Option MakerOrder) → last_desired ds (key_of d) o ≡ some d) cs
          → AllOrders (λ d. order_at (reconcile venue qs v ds).0.0 (key_of d) ≡ some d) cs
      settled [] r a = tt
      settled (d ∷ cs) r a = (r d ∙ a.0 none, settled cs r a.1)
