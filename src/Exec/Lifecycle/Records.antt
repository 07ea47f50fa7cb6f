-- ===== src/Exec/Lifecycle/Records.antt =====
-- What the acknowledged messages of a run say of its order.
use polybot.Common.{
  ℕ, ◌+◌, ltb, ◌≡◌, Bool, true, false, ◌&&◌, List, [], ◌∷◌, inl, inr, Bool-cases, ◌==◌,
  if◌then◌else◌, Result, ok, err,
}
use polybot.Num.{Qty}
use polybot.Makers.{VenueError}
use polybot.Exec.{OrderState, can_transition, ExecError, Order}
use polybot.Exec.Venue.{Fill, SubmitOutcome}
use polybot.Exec.Lifecycle.{
  StoreMsg, OrderStore, Run, fits_i64, and_then_run, on_ack, moved_to, book_fill, store_acked,
  persist_transition, open_order, record_fills, finish_order, close_order,
}

-- The messages, newest first, lead the order of the id from its draft to the state, in legal transitions.
pub data History (id : ℕ) : List StoreMsg → OrderState → Type 0 where
  drafted : History id [] OrderState.draft
  moved :
      {ms : List StoreMsg} {from : OrderState} (to : OrderState)
      → History id ms from
      → can_transition from to ≡ true
      → History id (StoreMsg.order_event id to ∷ ms) to
  other :
      {ms : List StoreMsg} {s : OrderState} (i : ℕ) (t : OrderState)
      → History id ms s
      → (i == id) ≡ false
      → History id (StoreMsg.order_event i t ∷ ms) s
  inserted :
      {ms : List StoreMsg} {s : OrderState} (o : Order)
      → History id ms s
      → History id (StoreMsg.order_insert o ∷ ms) s
  filled :
      {ms : List StoreMsg} {s : OrderState} (i : ℕ) (f : Fill)
      → History id ms s
      → History id (StoreMsg.fill_row i f ∷ ms) s

-- The state of the order is the one that its acknowledged events lead to.
abbrev pub IsRecorded : {S : Type 0} → Run S → Type 0
IsRecorded r = History r.order.id r.acked r.order.state

keeps_bind {ℓ κ} :
    {S : Type 0} {A : Type ℓ} {B : Type κ} (P : Run S → Type 0) (m : Run S × Result A ExecError)
    (f : A → Run S → Run S × Result B ExecError)
    → P m.0
    → ((a : A) → P (f a m.0).0)
    → P (and_then_run m f).0
keeps_bind P (r, ok a) f p q = q a
keeps_bind P (r, err e) f p q = p

module _ (writer : OrderStore) where
  open writer use {State, send}

  on_ack-IsRecorded :
      (r : Run State) (msg : StoreMsg) (a : State × Bool)
      → IsRecorded r
      → History r.order.id (msg ∷ r.acked) r.order.state
      → IsRecorded (on_ack r msg a).0
  on_ack-IsRecorded r msg (s, true) h k = k
  on_ack-IsRecorded r msg (s, false) h k = h

  transition_acked :
      (r : Run State) (to : OrderState) (a : State × Bool)
      → can_transition r.order.state to ≡ true
      → IsRecorded r
      → IsRecorded
          (and_then_run
            (on_ack r (StoreMsg.order_event r.order.id to) a)
            (λ u r'. moved_to r' to)).0
  transition_acked r to (s, true) c h = History.moved to h c
  transition_acked r to (s, false) c h = h

  persist-IsRecorded :
      (r : Run State) (to : OrderState)
      → IsRecorded r
      → IsRecorded (persist_transition writer r to).0
  unfolding persist_transition store_acked
  persist-IsRecorded r to h = elim (Bool-cases (can_transition r.order.state to)) [
    | inl c ↦ rw c (transition_acked r to (send r.store (StoreMsg.order_event r.order.id to)) c h)
    | inr c ↦ rw c h
  ]

  open_order-IsRecorded : (r : Run State) → IsRecorded r → IsRecorded (open_order writer r).0
  unfolding open_order store_acked
  open_order-IsRecorded r h =
      let stored =
        on_ack r (StoreMsg.order_insert r.order) (send r.store (StoreMsg.order_insert r.order)) in
      let first : IsRecorded stored.0 =
        on_ack-IsRecorded r _ (send r.store (StoreMsg.order_insert r.order)) h
          (History.inserted r.order h) in
      keeps_bind IsRecorded stored _ first (λ u.
        let second = persist-IsRecorded stored.0 OrderState.signed first in
        keeps_bind IsRecorded (persist_transition writer stored.0 OrderState.signed) _ second (λ u.
          persist-IsRecorded (persist_transition writer stored.0 OrderState.signed).0
            OrderState.submitted second))

  record_fills-IsRecorded :
      (r : Run State) (fs : List Fill) → IsRecorded r → IsRecorded (record_fills writer r fs).0
  unfolding record_fills store_acked
  record_fills-IsRecorded r [] h = h
  record_fills-IsRecorded r (f ∷ fs) h =
      let msg = StoreMsg.fill_row r.order.id f in
      let stored = on_ack r msg (send r.store msg) in
      let one : IsRecorded stored.0 =
        on_ack-IsRecorded r msg (send r.store msg) h (History.filled r.order.id f h) in
      elim (Bool-cases (fits_i64 f.cash && fits_i64 f.fee)) [
        | inl c ↦ rw c (
            keeps_bind IsRecorded stored _ one (λ u.
              record_fills-IsRecorded
                (record stored.0 { ledger = book_fill stored.0.ledger stored.0.order f }) fs one))
        | inr c ↦ rw c h
      ]

  finish-IsRecorded :
      (r : Run State) (q : Qty) → IsRecorded r → IsRecorded (finish_order writer r q).0
  unfolding finish_order
  finish-IsRecorded r q h =
      chosen (q == r.order.qty) (ltb 0 q) _ _ _ (persist-IsRecorded r OrderState.filled h)
        (keeps_bind IsRecorded (persist_transition writer r OrderState.part_filled) _
          (persist-IsRecorded r OrderState.part_filled h)
          (λ u.
            persist-IsRecorded (persist_transition writer r OrderState.part_filled).0
              OrderState.cancelled (persist-IsRecorded r OrderState.part_filled h)))
        (persist-IsRecorded r OrderState.cancelled h)
    where
      chosen :
          (b c : Bool) (x y z : Run State × Result (Unit {0}) ExecError)
          → IsRecorded x.0
          → IsRecorded y.0
          → IsRecorded z.0
          → IsRecorded (if b then x else if c then y else z).0
      chosen true c x y z p q s = p
      chosen false true x y z p q s = q
      chosen false false x y z p q s = s

  close_order-IsRecorded :
      (r : Run State) (res : Result SubmitOutcome VenueError)
      → IsRecorded r
      → IsRecorded (close_order writer r res).0
  unfolding close_order
  close_order-IsRecorded r (err e) h =
      keeps_bind IsRecorded
        (persist_transition writer (record r { errors = r.errors + 1 }) OrderState.rejected) _
        (persist-IsRecorded (record r { errors = r.errors + 1 }) OrderState.rejected h)
        (λ u. persist-IsRecorded (record r { errors = r.errors + 1 }) OrderState.rejected h)
  close_order-IsRecorded r (ok out) h =
      let r1 = persist_transition writer r OrderState.live in
      let h1 = persist-IsRecorded r OrderState.live h in
      let r2 = record_fills writer r1.0 out.fills in
      let h2 = record_fills-IsRecorded r1.0 out.fills h1 in
      let r3 = finish_order writer r2.0 out.filled in
      let h3 = finish-IsRecorded r2.0 out.filled h2 in
      keeps_bind IsRecorded r1 _ h1
        (λ u. keeps_bind IsRecorded r2 _ h2 (λ u. keeps_bind IsRecorded r3 _ h3 (λ u. h3)))

  -- Whatever the store acknowledges and the venue answers, opening an order and closing it keep its state
  -- the one to which its acknowledged events lead, in legal transitions from its draft.
  pub lifecycle-IsRecorded :
      (r : Run State) (res : Result SubmitOutcome VenueError)
      → IsRecorded r
      → IsRecorded (open_order writer r).0 × IsRecorded (close_order writer r res).0
  lifecycle-IsRecorded r res h = (open_order-IsRecorded r h, close_order-IsRecorded r res h)
