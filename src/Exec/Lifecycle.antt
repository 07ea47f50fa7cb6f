-- ===== src/Exec/Lifecycle.antt =====
-- crates/execution/src/basket.rs (`open_order`, `record_fills`, `close_order`) and `persist_transition` of
-- lib.rs, in the state of a run: the store, the messages that it has acknowledged, newest first, the
-- order, the ledger and the count of errors.
pub mod Records
pub mod Closes
pub mod Done
use polybot.Common.{
  ℕ, ◌+◌, Bool, true, false, not, ◌&&◌, Option, none, some, List, [], ◌∷◌, ltb, leb, ◌==◌,
  if◌then◌else◌, Result, ok, err,
}
use polybot.Common.Int.{ℤ, pos, neg_part, pos_part}
use polybot.Num.{Qty}
use polybot.Instrument.{TokenId}
use polybot.Engine.{Action}
use polybot.Makers.{VenueError}
use polybot.Exec.{OrderState, can_transition, ExecError, Order}
use polybot.Exec.Venue.{Fill, SubmitOutcome}
use polybot.Exec.Ledger.{Ledger, buy, sell}

-- The messages to the store: the row of an order, one of its events, and one of its fills.
pub data StoreMsg : Type 0 where
  order_insert : Order → StoreMsg
  order_event : ℕ → OrderState → StoreMsg
  fill_row : ℕ → Fill → StoreMsg

-- The writer behind the channel: whether a message is acknowledged.
pub record OrderStore : Type 1 where
  pub State : Type 0
  pub send : State → StoreMsg → State × Bool

pub record Run (S : Type 0) : Type 0 where
  pub store : S
  pub acked : List StoreMsg
  pub order : Order
  pub ledger : Ledger
  pub errors : ℕ

-- `usdc_to_i64` has a value.
abbrev pub fits_i64 : ℤ → Bool
fits_i64 z = leb (pos_part z) 9223372036854775807 && leb (neg_part z) 9223372036854775808

-- The step behind a `?`.
abbrev pub and_then_run {ℓ κ} :
    {S : Type 0} {A : Type ℓ} {B : Type κ}
    → Run S × Result A ExecError
    → (A → Run S → Run S × Result B ExecError)
    → Run S × Result B ExecError
and_then_run (r, ok a) f = f a r
and_then_run (r, err e) f = (r, err e)

abbrev pub on_ack : {S : Type 0} → Run S → StoreMsg → S × Bool → Run S × Result (Unit {0}) ExecError
on_ack r msg (s, true) = (record r { store = s; acked = msg ∷ r.acked }, ok tt)
on_ack r msg (s, false) = (record r { store = s }, err ExecError.store_closed)

-- `order.state = to`
abbrev pub moved_to : {S : Type 0} → Run S → OrderState → Run S × Result (Unit {0}) ExecError
moved_to r to = (record r { order = record r.order { state = to } }, ok tt)

-- A fill booked in the ledger.
abbrev pub book_fill : Ledger → Order → Fill → Ledger
book_fill l o f = elim o.action [
  | Action.buy ↦ buy l o.token f.qty f.cash
  | Action.sell ↦ sell l o.token f.qty f.cash
]

module _ (writer : OrderStore) where
  open writer use {State, send}

  unfoldable pub store_acked : Run State → StoreMsg → Run State × Result (Unit {0}) ExecError
  store_acked r msg = on_ack r msg (send r.store msg)

  -- The state changes only behind the acknowledgement.
  unfoldable pub persist_transition :
      Run State → OrderState → Run State × Result (Unit {0}) ExecError
  persist_transition r to =
      if can_transition r.order.state to
      then and_then_run (store_acked r (StoreMsg.order_event r.order.id to))
          (λ u r'. moved_to r' to)
      else (r, err (ExecError.bad_transition r.order.state to))

  unfoldable pub open_order : Run State → Run State × Result (Unit {0}) ExecError
  open_order r = and_then_run (store_acked r (StoreMsg.order_insert r.order)) (λ u r1.
      and_then_run (persist_transition r1 OrderState.signed)
        (λ u r2. persist_transition r2 OrderState.submitted))

  unfoldable pub record_fills : Run State → List Fill → Run State × Result (Unit {0}) ExecError
  record_fills r [] = (r, ok tt)
  record_fills r (f ∷ fs) =
      if fits_i64 f.cash && fits_i64 f.fee
      then and_then_run (store_acked r (StoreMsg.fill_row r.order.id f))
          (λ u r'. record_fills (record r' { ledger = book_fill r'.ledger r'.order f }) fs)
      else (r, err ExecError.store_closed)

  -- The terminal transitions of an order that is live.
  unfoldable pub finish_order : Run State → Qty → Run State × Result (Unit {0}) ExecError
  finish_order r filled =
      if filled == r.order.qty
      then persist_transition r OrderState.filled
      else if ltb 0 filled
      then and_then_run (persist_transition r OrderState.part_filled)
          (λ u r'. persist_transition r' OrderState.cancelled)
      else persist_transition r OrderState.cancelled

  unfoldable pub close_order :
      Run State → Result SubmitOutcome VenueError → Run State × Result Qty ExecError
  close_order r (err e) =
      and_then_run (persist_transition (record r { errors = r.errors + 1 }) OrderState.rejected)
        (λ u r'. (r', ok 0))
  close_order r (ok out) = and_then_run (persist_transition r OrderState.live) (λ u r1.
      and_then_run (record_fills r1 out.fills)
        (λ u r2. and_then_run (finish_order r2 out.filled) (λ u r3. (r3, ok out.filled))))
