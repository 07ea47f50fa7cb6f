-- ===== src/Makers/Quotes/Converges.antt =====
-- What a pass of `reconcile` leaves, on any venue.
use polybot.Common.{
  ◌≡◌, refl, sym, ap, ◌∙◌, Bool, true, false, ◌||◌, Option, none, some, List, [], ◌∷◌, arith,
  if◌then◌else◌, Bool-cases, inl, inr, Result, ok, err,
}
use polybot.Makers.{MakerOrder, MakerVenue, VenueError, OrderId, order_eq}
use polybot.Makers.Quotes.{
  Key, key_eq, key_of, Resting, Quotes, find_quote, set_quote, drop_quote, is_desired, stale_of,
  Pass, on_cancel, on_place, result_of, get_or_insert, cancel_stale, place_known, place_all,
  pass_of, reconcile,
}
use polybot.Makers.Quotes.Keys.{
  key_eq_iff, order_eq_sound, find_quote-set_quote, find_quote-drop_quote,
}

-- The order believed to rest for a key.
abbrev pub order_of : Option Resting → Option MakerOrder
order_of none = none
order_of (some r) = some r.order

abbrev pub order_at : Quotes → Key → Option MakerOrder
order_at qs k = order_of (find_quote qs k)

-- The last order desired for the key, and `o` if there is none.
unfoldable pub last_desired : List MakerOrder → Key → Option MakerOrder → Option MakerOrder
last_desired [] k o = o
last_desired (d ∷ ds) k o = last_desired ds k (if key_eq (key_of d) k then some d else o)

order_at-set_quote :
    (qs : Quotes) (j k : Key) (r : Resting)
    → order_at (set_quote qs j r) k ≡ (if key_eq j k then some r.order else order_at qs k)
order_at-set_quote qs j k r = ap order_of (find_quote-set_quote qs j k r) ∙ pulled (key_eq j k)
  where
    pulled :
        (b : Bool)
        → order_of (if b then some r else find_quote qs k)
          ≡ (if b then some r.order else order_at qs k)
    pulled true = refl
    pulled false = refl

order_at-drop_quote :
    (qs : Quotes) (j k : Key)
    → order_at (drop_quote qs j) k ≡ (if key_eq j k then none else order_at qs k)
order_at-drop_quote qs j k = ap order_of (find_quote-drop_quote qs j k) ∙ pulled (key_eq j k)
  where
    pulled :
        (b : Bool)
        → order_of (if b then none else find_quote qs k) ≡ (if b then none else order_at qs k)
    pulled true = refl
    pulled false = refl

pub no_error : (o : Option VenueError) (e : VenueError) → ¬ (get_or_insert o e ≡ none)
no_error none e h = cc
no_error (some a) e h = cc

-- A key that is already quoted as desired.
same_kept :
    (qs : Quotes) (d : MakerOrder) (r : Resting) (k : Key)
    → find_quote qs (key_of d) ≡ some r
    → order_eq r.order d ≡ true
    → order_at qs k ≡ (if key_eq (key_of d) k then some d else order_at qs k)
same_kept qs d r k f e = elim (Bool-cases (key_eq (key_of d) k)) [
  | inl b ↦ rw b (
      ap (order_at qs) (sym ((key_eq_iff (key_of d) k).0 b))
      ∙ ap order_of f
      ∙ ap some (order_eq_sound r.order d e))
  | inr b ↦ rw b refl
]

unfoldable pub in_keys : List (Key × OrderId) → Key → Bool
in_keys [] k = false
in_keys ((j, id) ∷ ks) k = key_eq j k || in_keys ks k

pub no_error_of : (o : Option VenueError) → result_of o ≡ ok tt → o ≡ none
no_error_of none h = refl
no_error_of (some e) h = cc

abbrev pub is_tracked : Option Resting → Bool
is_tracked none = false
is_tracked (some r) = true

pub stale-desired :
    (ds : List MakerOrder) (qs : Quotes) (k : Key)
    → is_desired ds k ≡ true
    → in_keys (stale_of ds qs) k ≡ false
unfolding stale_of in_keys
stale-desired ds [] k h = refl
stale-desired ds ((j, r) ∷ qs) k h = ground (arith, key_eq_iff j k, stale-desired ds qs k h)

pub stale-tracked :
    (ds : List MakerOrder) (qs : Quotes) (k : Key)
    → is_desired ds k ≡ false
    → in_keys (stale_of ds qs) k ≡ is_tracked (find_quote qs k)
unfolding stale_of in_keys find_quote
stale-tracked ds [] k h = refl
stale-tracked ds ((j, r) ∷ qs) k h = ground (arith, key_eq_iff j k, stale-tracked ds qs k h)

pub last_desired-none :
    (ds : List MakerOrder) (k : Key) (o : Option MakerOrder)
    → is_desired ds k ≡ false
    → last_desired ds k o ≡ o
unfolding is_desired last_desired
last_desired-none [] k o h = refl
last_desired-none (d ∷ ds) k o h = ground (arith, last_desired-none ds k o)

last_desired-some :
    (ds : List MakerOrder) (k : Key) (o p : Option MakerOrder)
    → is_desired ds k ≡ true
    → last_desired ds k o ≡ last_desired ds k p
unfolding is_desired last_desired
last_desired-some [] k o p h = cc
last_desired-some (d ∷ ds) k o p h = ground (arith, last_desired-some ds k o p)

-- What the cancels of a pass leave makes no difference to a desired key.
by_desire :
    (ds : List MakerOrder) (qs : Quotes) (k : Key) (b : Bool)
    → is_desired ds k ≡ b
    → last_desired ds k (if in_keys (stale_of ds qs) k then none else order_at qs k)
      ≡ last_desired ds k none
by_desire ds qs k true h = last_desired-some ds k _ _ h
by_desire ds qs k false h = ap (last_desired ds k) (
    ap (λ b. if b then none else order_at qs k) (stale-tracked ds qs k h)
    ∙ untracked (find_quote qs k))
  where
    untracked : (o : Option Resting) → (if is_tracked o then none else order_of o) ≡ none
    untracked none = refl
    untracked (some r) = refl

module _ (venue : MakerVenue) where
  open venue use {State, place, cancel, replace}

  placed :
      (p : Pass State) (d : MakerOrder) (k : Key) (r : State × Result OrderId VenueError)
      → (on_place p d r).first_err ≡ none
      → (p.first_err ≡ none)
        × (order_at (on_place p d r).quotes k
            ≡ (if key_eq (key_of d) k then some d else order_at p.quotes k))
  placed p d k (v, ok id) h = (h, order_at-set_quote p.quotes (key_of d) k _)
  placed p d k (v, err e) h = absurd (no_error p.first_err e h)

  pub step_placed :
      (p : Pass State) (d : MakerOrder) (k : Key) (o : Option Resting)
      → find_quote p.quotes (key_of d) ≡ o
      → (place_known venue p d o).first_err ≡ none
      → (p.first_err ≡ none)
        × (order_at (place_known venue p d o).quotes k
            ≡ (if key_eq (key_of d) k then some d else order_at p.quotes k))
  step_placed p d k none f h = placed p d k (place p.venue d) h
  step_placed p d k (some r) f h = chosen (order_eq r.order d) refl h
    where
      chosen :
          (b : Bool)
          → order_eq r.order d ≡ b
          → (if b then p else on_place p d (replace p.venue r.id d)).first_err ≡ none
          → (p.first_err ≡ none)
            × (order_at (if b then p else on_place p d (replace p.venue r.id d)).quotes k
                ≡ (if key_eq (key_of d) k then some d else order_at p.quotes k))
      chosen true e h = (h, same_kept p.quotes d r k f e)
      chosen false e h = placed p d k (replace p.venue r.id d) h

  pub all_placed :
      (p : Pass State) (ds : List MakerOrder) (k : Key)
      → (place_all venue p ds).first_err ≡ none
      → (p.first_err ≡ none)
        × (order_at (place_all venue p ds).quotes k ≡ last_desired ds k (order_at p.quotes k))
  unfolding place_all last_desired
  all_placed p [] k h = (h, refl)
  all_placed p (d ∷ ds) k h =
      let rest = all_placed (place_known venue p d (find_quote p.quotes (key_of d))) ds k h in
      let one = step_placed p d k _ refl rest.0 in (one.0, rest.1 ∙ ap (last_desired ds k) one.1)

  cancelled :
      (p : Pass State) (j k : Key) (r : State × Result (Unit {0}) VenueError)
      → (on_cancel p j r).first_err ≡ none
      → (p.first_err ≡ none)
        × (order_at (on_cancel p j r).quotes k ≡ (if key_eq j k then none else order_at p.quotes k))
  cancelled p j k (v, ok u) h = (h, order_at-drop_quote p.quotes j k)
  cancelled p j k (v, err e) h = absurd (no_error p.first_err e h)

  pub all_cancelled :
      (p : Pass State) (ks : List (Key × OrderId)) (k : Key)
      → (cancel_stale venue p ks).first_err ≡ none
      → (p.first_err ≡ none)
        × (order_at (cancel_stale venue p ks).quotes k
            ≡ (if in_keys ks k then none else order_at p.quotes k))
  unfolding cancel_stale in_keys
  all_cancelled p [] k h = (h, refl)
  all_cancelled p ((j, id) ∷ ks) k h =
      let rest = all_cancelled (on_cancel p j (cancel p.venue id)) ks k h in
      let one = cancelled p j k (cancel p.venue id) rest.0 in
      (
        one.0,
        rest.1
            ∙ ap (λ o. if in_keys ks k then none else o) one.1
            ∙ merged (in_keys ks k) (key_eq j k) _,
      )
    where
      merged :
          (a b : Bool) (o : Option MakerOrder)
          → (if a then none else if b then none else o) ≡ (if b || a then none else o)
      merged true true o = refl
      merged true false o = refl
      merged false true o = refl
      merged false false o = refl

  -- On any venue, a pass that returns no error leaves tracked exactly what is desired: for every key the
  -- last desired order, and nothing for a key of which none is desired.
  pub reconcile-desired :
      (qs : Quotes) (v : State) (ds : List MakerOrder) (k : Key)
      → (reconcile venue qs v ds).1 ≡ ok tt
      → order_at (reconcile venue qs v ds).0.0 k ≡ last_desired ds k none
  unfolding reconcile
  reconcile-desired qs v ds k h =
      let clean = no_error_of (pass_of venue qs v ds).first_err h in
      let placing = all_placed _ ds k clean in
      let cancelling = all_cancelled _ (stale_of ds qs) k placing.0 in
      placing.1 ∙ ap (last_desired ds k) cancelling.1 ∙ by_desire ds qs k (is_desired ds k) refl
