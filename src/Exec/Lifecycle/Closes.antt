-- ===== src/Exec/Lifecycle/Closes.antt =====
-- How `close_order` ends.
use polybot.Common.{
  ℕ, ◌+◌, ltb, ◌≡◌, ◌⊎◌, refl, sym, ap, ap₂, ◌∙◌, subst, eq_of_ok, Bool, true, false, ◌&&◌, List,
  [], ◌∷◌, inl, inr, Bool-cases, ◌==◌, if◌then◌else◌, Result, ok, err,
}
use polybot.Num.{Qty}
use polybot.Makers.{VenueError}
use polybot.Exec.{OrderState, can_transition, ExecError, Order}
use polybot.Exec.Venue.{Fill, SubmitOutcome}
use polybot.Exec.Ledger.{Ledger}
use polybot.Exec.Lifecycle.{
  StoreMsg, OrderStore, Run, fits_i64, and_then_run, on_ack, moved_to, book_fill, store_acked,
  persist_transition, record_fills, finish_order, close_order,
}

-- The run ends as by a closed store, and F holds, or there is a result for which P holds.
abbrev pub Outcome {ℓ} :
    {S : Type 0} {A : Type ℓ}
    → (Run S → Type 0)
    → (A → Run S → Type 0)
    → Run S × Result A ExecError
    → Type ℓ
Outcome {A = A} F P (r, res) =
    ((res ≡ err ExecError.store_closed) × F r) ⊎ ((a : A) × (res ≡ ok a) × P a r)

bind-Outcome {ℓ κ} :
    {S : Type 0} {A : Type ℓ} {B : Type κ} (F : Run S → Type 0) (P : A → Run S → Type 0)
    (Q : B → Run S → Type 0) (m : Run S × Result A ExecError)
    (f : A → Run S → Run S × Result B ExecError)
    → Outcome F P m
    → ((a : A) (r : Run S) → P a r → Outcome F Q (f a r))
    → Outcome F Q (and_then_run m f)
bind-Outcome F P Q (r, ok a) f (inl e) k = absurd (cc e.0)
bind-Outcome F P Q (r, ok a) f (inr (b, e, p)) k = k a r (subst (λ c. P c r) (sym (eq_of_ok e)) p)
bind-Outcome F P Q (r, err x) f (inl e) k = inl (cc e.0, e.1)
bind-Outcome F P Q (r, err x) f (inr (b, e, p)) k = absurd (cc e)

-- The cash and the fee of every fill fit the columns of the store.
abbrev pub AllFit : List Fill → Type 0
AllFit [] = Unit {0}
AllFit (f ∷ fs) = ((fits_i64 f.cash && fits_i64 f.fee) ≡ true) × AllFit fs

abbrev pub OutcomeFits : Result SubmitOutcome VenueError → Type 0
OutcomeFits (err e) = Unit {0}
OutcomeFits (ok out) = AllFit out.fills

-- A run whose order, ledger and errors are these.
abbrev pub Holds : {S : Type 0} → Order → Ledger → ℕ → Run S → Type 0
Holds o l n r = (r.order ≡ o) × (r.ledger ≡ l) × (r.errors ≡ n)

abbrev pub in_state : Order → OrderState → Order
in_state o s = record o { state = s }

-- The fills of an order booked one by one.
unfoldable pub book_fills : Ledger → Order → List Fill → Ledger
book_fills l o [] = l
book_fills l o (f ∷ fs) = book_fills (book_fill l o f) o fs

module _ (writer : OrderStore) where
  open writer use {State, send}

  -- The store is as it is left by a message that it did not acknowledge.
  abbrev pub Refused : Run State → Type 0
  Refused r = (s : State) × (msg : StoreMsg) × ((send s msg).1 ≡ false) × (r.store ≡ (send s msg).0)

  -- Why a run ends without a result: a message refused, or U.
  abbrev pub Fails : Type 0 → Run State → Type 0
  Fails U r = Refused r ⊎ U

  acked-Holds :
      (U : Type 0) (r : Run State) (o : Order) (l : Ledger) (n : ℕ) (msg : StoreMsg)
      → Holds o l n r
      → Outcome (Fails U) (λ u. Holds o l n) (store_acked writer r msg)
  unfolding store_acked
  acked-Holds U r o l n msg h = go (send r.store msg) refl
    where
      go :
          (a : State × Bool)
          → send r.store msg ≡ a
          → Outcome (Fails U) (λ u. Holds o l n) (on_ack r msg a)
      go (s, true) e = inr (tt, refl, h)
      go (s, false) e = inl (
        refl,
        inl (
          r.store,
          msg,
          ap (λ (x : State × Bool). x.1) e,
          sym (ap (λ (x : State × Bool). x.0) e),
        ),
      )

  persist-Holds :
      (U : Type 0) (r : Run State) (o : Order) (l : Ledger) (n : ℕ) (to : OrderState)
      → Holds o l n r
      → can_transition o.state to ≡ true
      → Outcome (Fails U) (λ u. Holds (in_state o to) l n) (persist_transition writer r to)
  unfolding persist_transition
  persist-Holds U r o l n to h c = rw (ap (λ (p : Order). can_transition p.state to) h.0 ∙ c) (
      bind-Outcome (Fails U) (λ u. Holds o l n) (λ u. Holds (in_state o to) l n) _
        (λ u r'. moved_to r' to) (acked-Holds U r o l n (StoreMsg.order_event r.order.id to) h)
        (λ u r' k. inr (tt, refl, (ap (λ (p : Order). in_state p to) k.0, k.1, k.2))))

  record_fills-Holds :
      (U : Type 0) (r : Run State) (o : Order) (l : Ledger) (n : ℕ) (fs : List Fill)
      → Holds o l n r
      → (¬ AllFit fs → U)
      → Outcome (Fails U) (λ u. Holds o (book_fills l o fs) n) (record_fills writer r fs)
  unfolding record_fills book_fills
  record_fills-Holds U r o l n [] h w = inr (tt, refl, h)
  record_fills-Holds U r o l n (f ∷ fs) h w =
      elim (Bool-cases (fits_i64 f.cash && fits_i64 f.fee)) [
        | inl c ↦ rw c (
            bind-Outcome (Fails U) (λ u. Holds o l n)
              (λ u. Holds o (book_fills (book_fill l o f) o fs) n) _ _
              (acked-Holds U r o l n (StoreMsg.fill_row r.order.id f) h)
              (λ u r' k.
                record_fills-Holds U (record r' { ledger = book_fill r'.ledger r'.order f }) o
                  (book_fill l o f) n fs (k.0, ap₂ (λ p q. book_fill p q f) k.1 k.0, k.2)
                  (λ x. w (λ y. x y.1))))
        | inr c ↦ rw c (inl (refl, inr (w (λ y. cc (y.0, c)))))
      ]

  -- The state in which an order ends.
  abbrev end_state : Order → Qty → OrderState
  end_state o filled = if filled == o.qty then OrderState.filled else OrderState.cancelled

  finish-Holds :
      (U : Type 0) (r : Run State) (o : Order) (l : Ledger) (n : ℕ) (q : Qty)
      → Holds (in_state o OrderState.live) l n r
      → Outcome (Fails U) (λ u. Holds (in_state o (end_state o q)) l n) (finish_order writer r q)
  unfolding finish_order can_transition
  finish-Holds U r o l n q h =
      subst
        (λ k.
          Outcome (Fails U)
            (λ u.
              Holds (in_state o (if q == k then OrderState.filled else OrderState.cancelled)) l n)
            (finish_order writer r q))
        (ap (λ (p : Order). p.qty) h.0) (chosen (q == r.order.qty) (ltb 0 q))
    where
      chosen :
          (b c : Bool)
          → Outcome
              (Fails U)
              (λ u. Holds (in_state o (if b then OrderState.filled else OrderState.cancelled)) l n)
              (if b
                then persist_transition writer r OrderState.filled
                else if c
                then and_then_run
                    (persist_transition writer r OrderState.part_filled)
                    (λ u r'. persist_transition writer r' OrderState.cancelled)
                else persist_transition writer r OrderState.cancelled)
      chosen true c = persist-Holds U r (in_state o OrderState.live) l n OrderState.filled h refl
      chosen false true =
          bind-Outcome (Fails U) (λ u. Holds (in_state o OrderState.part_filled) l n)
            (λ u. Holds (in_state o OrderState.cancelled) l n) _ _
            (persist-Holds U r (in_state o OrderState.live) l n OrderState.part_filled h refl)
            (λ u r' k.
              persist-Holds U r' (in_state o OrderState.part_filled) l n OrderState.cancelled k
                refl)
      chosen false false =
          persist-Holds U r (in_state o OrderState.live) l n OrderState.cancelled h refl

  -- What closing leaves, once the store has acknowledged all of it.
  abbrev pub Closed : Run State → Result SubmitOutcome VenueError → Qty → Run State → Type 0
  Closed r (err e) q r' =
      (q ≡ 0) × Holds (in_state r.order OrderState.rejected) r.ledger (r.errors + 1) r'
  Closed r (ok out) q r' =
      (q ≡ out.filled)
      × Holds (in_state r.order (end_state r.order out.filled))
          (book_fills r.ledger (in_state r.order OrderState.live) out.fills) r.errors r'

  -- Closing an order that was submitted either fails with a closed store, and then either the store is
  -- as a message that it did not acknowledge leaves it, or a cash or a fee of the venue's answer does not
  -- fit its column; or it gives the filled quantity: a venue's error rejects the order, counts, and books
  -- nothing; an answer books every fill and leaves the order filled if the whole quantity is, and
  -- cancelled if not. No transition is ever illegal.
  pub close_order-Closed :
      (r : Run State) (res : Result SubmitOutcome VenueError)
      → r.order.state ≡ OrderState.submitted
      → Outcome (Fails (¬ OutcomeFits res)) (Closed r res) (close_order writer r res)
  unfolding close_order can_transition
  close_order-Closed r (err e) s =
      bind-Outcome (Fails (¬ OutcomeFits (err e)))
        (λ u. Holds (in_state r.order OrderState.rejected) r.ledger (r.errors + 1))
        (Closed r (err e)) _ _
        (persist-Holds (¬ OutcomeFits (err e)) (record r { errors = r.errors + 1 }) r.order r.ledger
          (r.errors + 1) OrderState.rejected (refl, refl, refl)
          (ap (λ t. can_transition t OrderState.rejected) s))
        (λ u r' k. inr (0, refl, (refl, k)))
  close_order-Closed r (ok out) s =
      bind-Outcome (Fails (¬ OutcomeFits (ok out)))
        (λ u. Holds (in_state r.order OrderState.live) r.ledger r.errors) (Closed r (ok out)) _ _
        (persist-Holds (¬ OutcomeFits (ok out)) r r.order r.ledger r.errors OrderState.live
          (refl, refl, refl) (ap (λ t. can_transition t OrderState.live) s))
        (λ u r1 k1.
          bind-Outcome (Fails (¬ OutcomeFits (ok out)))
            (λ u.
              Holds (in_state r.order OrderState.live)
                (book_fills r.ledger (in_state r.order OrderState.live) out.fills) r.errors)
            (Closed r (ok out)) _ _
            (record_fills-Holds (¬ OutcomeFits (ok out)) r1 (in_state r.order OrderState.live)
              r.ledger r.errors out.fills k1 (λ x. x))
            (λ u r2 k2.
              bind-Outcome (Fails (¬ OutcomeFits (ok out)))
                (λ u.
                  Holds (in_state r.order (end_state r.order out.filled))
                    (book_fills r.ledger (in_state r.order OrderState.live) out.fills) r.errors)
                (Closed r (ok out)) _ _
                (finish-Holds (¬ OutcomeFits (ok out)) r2 r.order _ r.errors out.filled k2)
                (λ u r3 k3. inr (out.filled, refl, (refl, k3)))))
