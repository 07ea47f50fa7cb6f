-- ===== src/Exec/Lifecycle/Done.antt =====
-- `close_order` where the store acknowledges every message.
use polybot.Common.{◌≡◌, true, inl, inr, Result, ok}
use polybot.Num.{Qty}
use polybot.Makers.{VenueError}
use polybot.Exec.{OrderState}
use polybot.Exec.Venue.{SubmitOutcome}
use polybot.Exec.Lifecycle.{StoreMsg, OrderStore, Run, close_order}
use polybot.Exec.Lifecycle.Closes.{OutcomeFits, Fails, Closed, close_order-Closed}

module _ (writer : OrderStore)
    (open_channel : (s : writer.State) (m : StoreMsg) → (writer.send s m).1 ≡ true) where
  open writer use {State, send}

  not_failed :
      (r : Run State) (res : Result SubmitOutcome VenueError)
      → OutcomeFits res
      → ¬ Fails writer (¬ OutcomeFits res) r
  not_failed r res h (inl (s, msg, e, f)) = cc (open_channel s msg, e)
  not_failed r res h (inr n) = n h

  -- Where the store acknowledges every message and the amounts of the fills fit its columns, closing an
  -- order that was submitted succeeds: an error of the venue rejects the order, counts and books nothing;
  -- an answer gives the filled quantity, books every fill, and leaves the order filled if its whole
  -- quantity is, and cancelled if not.
  pub close_order_done :
      (r : Run State) (res : Result SubmitOutcome VenueError)
      → r.order.state ≡ OrderState.submitted
      → OutcomeFits res
      → let (r', out) = close_order writer r res in
        (q : Qty) × (out ≡ ok q) × Closed writer r res q r'
  close_order_done r res s h = elim (close_order-Closed writer r res s) [
    | inl e ↦ absurd (not_failed (close_order writer r res).0 res h e.1)
    | inr p ↦ p
  ]
