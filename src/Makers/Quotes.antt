-- ===== src/Makers/Quotes.antt =====
-- crates/execution/src/quote_manager.rs and reconcile.rs: what a strategy believes to rest on a venue.
-- The hash map is an association list.
pub mod Keys
pub mod Converges
pub mod Settled
use polybot.Common.{
  ℕ, ◌+◌, ◌-◌, Bool, true, false, not, ◌&&◌, ◌||◌, Option, none, some, List, [], ◌∷◌, ◌==◌,
  if◌then◌else◌, Result, ok, err, ◌>>=◌, length,
}
use polybot.Num.{Px, Qty}
use polybot.Book.{Side}
use polybot.Instrument.{TokenId}
use polybot.Makers.{
  MakerOrder, MakerVenue, OpenOrder, OrderId, OrderType, VenueError, side_eq, order_eq,
}

abbrev pub Key : Type 0
Key = TokenId × Side

abbrev pub key_eq : Key → Key → Bool
key_eq (t, s) (t', s') = t == t' && side_eq s s'

abbrev pub key_of : MakerOrder → Key
key_of o = (o.token, o.side)

pub record Resting : Type 0 where
  pub id : OrderId
  pub order : MakerOrder

-- `QuoteManager`
abbrev pub Quotes : Type 0
Quotes = List (Key × Resting)

unfoldable pub find_quote : Quotes → Key → Option Resting
find_quote [] k = none
find_quote ((j, r) ∷ qs) k = if key_eq j k then some r else find_quote qs k

-- `HashMap::insert`
unfoldable pub set_quote : Quotes → Key → Resting → Quotes
set_quote [] k r = (k, r) ∷ []
set_quote ((j, s) ∷ qs) k r = if key_eq j k then (k, r) ∷ qs else (j, s) ∷ set_quote qs k r

-- `HashMap::remove`
unfoldable pub drop_quote : Quotes → Key → Quotes
drop_quote [] k = []
drop_quote ((j, s) ∷ qs) k = if key_eq j k then drop_quote qs k else (j, s) ∷ drop_quote qs k

-- `desired_keys.contains(key)`
unfoldable pub is_desired : List MakerOrder → Key → Bool
is_desired [] k = false
is_desired (o ∷ ds) k = key_eq (key_of o) k || is_desired ds k

-- The snapshot of what is tracked and no longer desired.
unfoldable pub stale_of : List MakerOrder → Quotes → List (Key × OrderId)
stale_of ds [] = []
stale_of ds ((k, r) ∷ qs) = if is_desired ds k then stale_of ds qs else (k, r.id) ∷ stale_of ds qs

-- `first_err.get_or_insert(e)`
abbrev pub get_or_insert : Option VenueError → VenueError → Option VenueError
get_or_insert none e = some e
get_or_insert (some a) e = some a

-- The manager, the venue and the first error in the course of a pass.
pub record Pass (S : Type 0) : Type 0 where
  pub quotes : Quotes
  pub venue : S
  pub first_err : Option VenueError

abbrev pub on_cancel : {S : Type 0} → Pass S → Key → S × Result (Unit {0}) VenueError → Pass S
on_cancel p k (v, ok u) = record p { venue = v; quotes = drop_quote p.quotes k }
on_cancel p k (v, err e) = record p { venue = v; first_err = get_or_insert p.first_err e }

abbrev pub on_place : {S : Type 0} → Pass S → MakerOrder → S × Result OrderId VenueError → Pass S
on_place p o (v, ok id) = record p {
  venue = v;
  quotes = set_quote p.quotes (key_of o) (record { id = id; order = o });
}
on_place p o (v, err e) = record p { venue = v; first_err = get_or_insert p.first_err e }

abbrev pub result_of : Option VenueError → Result (Unit {0}) VenueError
result_of none = ok tt
result_of (some e) = err e

-- `QuoteManager::adopt`
unfoldable pub adopt : Quotes → OpenOrder → Quotes
adopt qs o =
    set_quote qs (o.token, o.side)
      (record {
        id = o.id;
        order = record {
          token = o.token;
          side = o.side;
          price = o.price;
          size = o.size;
          order_type = OrderType.gtc;
          post_only = true;
        };
      })

-- `QuoteManager::forget_all`
abbrev pub forget_all : Quotes → Quotes
forget_all qs = []

-- The first quote with the id.
unfoldable pub find_id : Quotes → OrderId → Option (Key × Resting)
find_id [] id = none
find_id ((k, r) ∷ qs) id = if r.id == id then some (k, r) else find_id qs id

abbrev pub filled_quote : Quotes → Qty → Option (Key × Resting) → Quotes
filled_quote qs filled none = qs
filled_quote qs filled (some (k, r)) =
    if (r.order.size - filled) == 0
    then drop_quote qs k
    else set_quote qs k (record r { order = record r.order { size = r.order.size - filled } })

-- `QuoteManager::note_fill`
unfoldable pub note_fill : Quotes → OrderId → Qty → Quotes
note_fill qs id filled = filled_quote qs filled (find_id qs id)

pub data ReconcilePolicy : Type 0 where
  cancel_all_policy adopt_policy : ReconcilePolicy

pub record ReconcileReport : Type 0 where
  pub found : ℕ
  pub cancelled : ℕ
  pub adopted : ℕ

unfoldable pub adopt_all : Quotes → List OpenOrder → Quotes
adopt_all qs [] = qs
adopt_all qs (o ∷ os) = adopt_all (adopt qs o) os

module _ (venue : MakerVenue) where
  open venue use {State, place, cancel, replace, open_orders}

  unfoldable pub cancel_stale : Pass State → List (Key × OrderId) → Pass State
  cancel_stale p [] = p
  cancel_stale p ((k, id) ∷ ks) = cancel_stale (on_cancel p k (cancel p.venue id)) ks

  abbrev pub place_known : Pass State → MakerOrder → Option Resting → Pass State
  place_known p o none = on_place p o (place p.venue o)
  place_known p o (some r) = if order_eq r.order o then p else on_place p o (replace p.venue r.id o)

  unfoldable pub place_all : Pass State → List MakerOrder → Pass State
  place_all p [] = p
  place_all p (o ∷ ds) = place_all (place_known p o (find_quote p.quotes (key_of o))) ds

  abbrev pub pass_of : Quotes → State → List MakerOrder → Pass State
  pass_of qs v ds =
      place_all
        (cancel_stale (record { quotes = qs; venue = v; first_err = none }) (stale_of ds qs)) ds

  -- `QuoteManager::reconcile`
  unfoldable pub reconcile :
      Quotes → State → List MakerOrder → (Quotes × State) × Result (Unit {0}) VenueError
  reconcile qs v ds = let p = pass_of qs v ds in ((p.quotes, p.venue), result_of p.first_err)

  -- The loop of `QuoteManager::cancel_all` over the snapshot, left at the first error.
  unfoldable pub cancel_each :
      Quotes → State → List (Key × OrderId) → (Quotes × State) × Result (Unit {0}) VenueError
  cancel_each qs v [] = ((qs, v), ok tt)
  cancel_each qs v ((k, id) ∷ ks) =
      let r = cancel v id in
      elim r.1 [ ok u ↦ cancel_each (drop_quote qs k) r.0 ks | err e ↦ ((qs, r.0), err e) ]

  -- `QuoteManager::cancel_all`
  unfoldable pub cancel_all : Quotes → State → (Quotes × State) × Result (Unit {0}) VenueError
  cancel_all qs v = cancel_each qs v (stale_of [] qs)

  abbrev pub cancel_found :
      Quotes → State → Key → Option Resting → (Quotes × State) × Result (Unit {0}) VenueError
  cancel_found qs v k none = ((qs, v), ok tt)
  cancel_found qs v k (some r) = cancel_each qs v ((k, r.id) ∷ [])

  -- `QuoteManager::cancel_one`
  unfoldable pub cancel_one : Quotes → State → Key → (Quotes × State) × Result (Unit {0}) VenueError
  cancel_one qs v k = cancel_found qs v k (find_quote qs k)

  -- The loop of `CancelAll`, which counts the cancels that the venue acknowledges.
  unfoldable pub cancel_open : State → List OpenOrder → State × Result ℕ VenueError
  cancel_open v [] = (v, ok 0)
  cancel_open v (o ∷ os) =
      let r = cancel v o.id in
      elim r.1 [
        | ok u ↦ let rest = cancel_open r.0 os in (rest.0, rest.1 >>= λ n. ok (n + 1))
        | err e ↦ (r.0, err e)
      ]

  abbrev pub cancelled_report : ℕ → Result ℕ VenueError → Result ReconcileReport VenueError
  cancelled_report found (err e) = err e
  cancelled_report found (ok n) = ok (record { found = found; cancelled = n; adopted = 0 })

  abbrev pub on_open :
      Quotes
      → ReconcilePolicy
      → State × Result (List OpenOrder) VenueError
      → (Quotes × State) × Result ReconcileReport VenueError
  on_open qs policy (v, err e) = ((qs, v), err e)
  on_open qs ReconcilePolicy.cancel_all_policy (v, ok os) =
      let r = cancel_open v os in ((qs, r.0), cancelled_report (length os) r.1)
  on_open qs ReconcilePolicy.adopt_policy (v, ok os) =
      ((adopt_all qs os, v), ok (record { found = length os; cancelled = 0; adopted = length os }))

  -- `reconcile_open_orders`
  unfoldable pub reconcile_open_orders :
      Quotes → State → ReconcilePolicy → (Quotes × State) × Result ReconcileReport VenueError
  reconcile_open_orders qs v policy = on_open qs policy (open_orders v)
