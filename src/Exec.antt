-- ===== src/Exec.antt =====
-- crates/execution/src/lib.rs: the states of an order and the write-ahead transition. An id is a number;
-- times and details of the rows are left out. The store is a parameter: a message is acknowledged or not.
pub mod Venue
pub mod Ledger
pub mod Lifecycle
pub mod Surplus
pub mod Repair
mod Tests
use polybot.Common.{ℕ, Bool, true, false, List, ◌∷◌, if◌then◌else◌, Result, ok, err}
use polybot.Num.{TickSize, Px, Qty, Usdc, Bps}
use polybot.Instrument.{TokenId}
use polybot.Engine.{Action}

pub data OrderState : Type 0 where
  draft signed submitted live filled part_filled cancelled rejected expired : OrderState

unfoldable pub can_transition : OrderState → OrderState → Bool
can_transition OrderState.draft OrderState.signed = true
can_transition OrderState.signed OrderState.submitted = true
can_transition OrderState.submitted OrderState.live = true
can_transition OrderState.submitted OrderState.rejected = true
can_transition OrderState.submitted OrderState.expired = true
can_transition OrderState.live OrderState.filled = true
can_transition OrderState.live OrderState.part_filled = true
can_transition OrderState.live OrderState.cancelled = true
can_transition OrderState.live OrderState.rejected = true
can_transition OrderState.live OrderState.expired = true
can_transition OrderState.part_filled OrderState.filled = true
can_transition OrderState.part_filled OrderState.cancelled = true
can_transition OrderState.part_filled OrderState.expired = true
can_transition _ _ = false

-- The message of a venue's error is left out.
pub data ExecError : Type 0 where
  bad_transition : OrderState → OrderState → ExecError
  store_closed venue_failed : ExecError

pub record Order : Type 0 where
  pub id : ℕ
  pub fingerprint : ℕ
  pub token : TokenId
  pub action : Action
  pub ts : TickSize
  pub limit_px : Px
  pub qty : Qty
  pub fee_bps : Bps
  pub state : OrderState

-- `Order::new`, with the id that is drawn for it.
abbrev pub order_new : ℕ → ℕ → TokenId → Action → TickSize → Px → Qty → Bps → Order
order_new id fp token action ts limit_px qty fee_bps = record {
  id = id;
  fingerprint = fp;
  token = token;
  action = action;
  ts = ts;
  limit_px = limit_px;
  qty = qty;
  fee_bps = fee_bps;
  state = OrderState.draft;
}
