-- ===== src/Risk.antt =====
-- crates/risk/src/lib.rs: the pure risk engine. The hash map of exposures is an association list, an
-- `Instant` a number of milliseconds, the error deque a list with its front first.
pub mod Ledger
pub mod Caps
pub mod Halts
mod Tests
use polybot.Common.{
  ℕ, ◌+◌, ◌-◌, min, Bool, true, false, ◌&&◌, Option, none, some, List, [], ◌∷◌, ◌++◌, ltb, leb,
  ◌==◌, if◌then◌else◌, length,
}
use polybot.Common.Int.{ℤ, pos, ◌+ℤ◌, ◌-ℤ◌, ◌*ℤ◌, ltb_ℤ, leb_ℤ, max_ℤ, div_trunc}
use polybot.Instrument.{MarketId}
use polybot.Num.{Usdc}

pub record RiskConfig : Type 0 where
  pub bankroll : Usdc
  pub per_market_cap : Usdc
  pub max_unhedged : Usdc
  pub max_open_orders : ℕ
  pub max_basket_legs : ℕ
  pub daily_drawdown_bps : ℤ
  pub error_halt_count : ℕ
  pub error_halt_window : ℕ
  pub restart_storm_count : ℕ
  pub session_loss_cap : Option Usdc

pub record BasketCheck : Type 0 where
  pub total_cost : Usdc
  pub max_leg_cost : Usdc
  pub legs : ℕ
  pub per_market : List (MarketId × Usdc)

pub data HaltReason : Type 0 where
  daily_drawdown consecutive_errors restart_storm session_loss : HaltReason

pub data RejectReason : Type 0 where
  bankroll per_market_cap max_open_orders max_basket_legs unhedged paused kill_switch : RejectReason
  halted : HaltReason → RejectReason

pub data RiskVerdict : Type 0 where
  approved : RiskVerdict
  rejected : RejectReason → RiskVerdict

-- The hash map of exposures: `get(&m).copied().unwrap_or(0)` and
-- `*entry(m).or_insert(0) += cost`.
abbrev pub Exposures : Type 0
Exposures = List (MarketId × ℤ)

unfoldable pub exposure : MarketId → Exposures → ℤ
exposure m [] = pos 0
exposure m ((k, v) ∷ es) = if k == m then v else exposure m es

unfoldable pub add_exposure : MarketId → ℤ → Exposures → Exposures
add_exposure m c [] = (m, pos 0 +ℤ c) ∷ []
add_exposure m c ((k, v) ∷ es) = if k == m then (k, v +ℤ c) ∷ es else (k, v) ∷ add_exposure m c es

pub record RiskEngine : Type 0 where
  pub cfg : RiskConfig
  pub global_exposure : ℤ
  pub per_market : Exposures
  pub open_orders : ℕ
  pub paused : Bool
  pub halted : Option HaltReason
  pub killed : Bool
  pub peak_equity : ℤ
  pub errors : List ℕ

-- `RiskEngine::new`
unfoldable pub engine_new : RiskConfig → RiskEngine
engine_new cfg = record {
  cfg = cfg;
  global_exposure = pos 0;
  per_market = [];
  open_orders = 0;
  paused = false;
  halted = none;
  killed = false;
  peak_equity = pos 0;
  errors = [];
}

-- The loop of `pre_check` over the markets of a basket.
unfoldable pub check_markets : ℤ → Exposures → List (MarketId × Usdc) → RiskVerdict
check_markets cap es [] = RiskVerdict.approved
check_markets cap es ((m, cost) ∷ ms) =
    if ltb_ℤ cap (exposure m es +ℤ cost)
    then RiskVerdict.rejected RejectReason.per_market_cap
    else check_markets cap es ms

-- The caps, in the order of the source.
unfoldable pub check_caps : RiskEngine → BasketCheck → RiskVerdict
check_caps e b =
    if ltb e.cfg.max_basket_legs b.legs
    then RiskVerdict.rejected RejectReason.max_basket_legs
    else if ltb e.cfg.max_open_orders (e.open_orders + b.legs)
    then RiskVerdict.rejected RejectReason.max_open_orders
    else if ltb_ℤ e.cfg.max_unhedged b.max_leg_cost
    then RiskVerdict.rejected RejectReason.unhedged
    else if ltb_ℤ e.cfg.bankroll (e.global_exposure +ℤ b.total_cost)
    then RiskVerdict.rejected RejectReason.bankroll
    else check_markets e.cfg.per_market_cap e.per_market b.per_market

abbrev pub check_halt : Option HaltReason → RiskVerdict → RiskVerdict
check_halt (some h) v = RiskVerdict.rejected (RejectReason.halted h)
check_halt none v = v

unfoldable pub pre_check : RiskEngine → BasketCheck → RiskVerdict
unfolding check_caps
pre_check e b =
    if e.killed
    then RiskVerdict.rejected RejectReason.kill_switch
    else check_halt e.halted
        (if e.paused then RiskVerdict.rejected RejectReason.paused else check_caps e b)

-- The loops of `reserve` and `release`.
unfoldable pub add_markets : List (MarketId × Usdc) → Exposures → Exposures
add_markets [] es = es
add_markets ((m, cost) ∷ ms) es = add_markets ms (add_exposure m cost es)

unfoldable pub sub_markets : List (MarketId × Usdc) → Exposures → Exposures
sub_markets [] es = es
sub_markets ((m, cost) ∷ ms) es = sub_markets ms (add_exposure m (pos 0 -ℤ cost) es)

unfoldable pub reserve : RiskEngine → BasketCheck → RiskEngine
reserve e b = record e {
  global_exposure = e.global_exposure +ℤ b.total_cost;
  per_market = add_markets b.per_market e.per_market;
  open_orders = e.open_orders + b.legs;
}

unfoldable pub release : RiskEngine → BasketCheck → RiskEngine
release e b = record e {
  global_exposure = e.global_exposure -ℤ b.total_cost;
  per_market = sub_markets b.per_market e.per_market;
  open_orders = e.open_orders - b.legs;
}

unfoldable pub commit : RiskEngine → MarketId → Usdc → RiskEngine
commit e market delta = record e {
  global_exposure = e.global_exposure +ℤ delta;
  per_market = add_exposure market delta e.per_market;
}

unfoldable pub set_paused : RiskEngine → Bool → RiskEngine
set_paused e p = record e { paused = p }

unfoldable pub trip_kill : RiskEngine → RiskEngine
trip_kill e = record e { killed = true }

unfoldable pub clear_kill : RiskEngine → RiskEngine
clear_kill e = record e { killed = false }

-- The loop that drops the errors older than the window from the front; `duration_since` saturates.
unfoldable pub pop_old : ℕ → ℕ → List ℕ → List ℕ
pop_old window now [] = []
pop_old window now (front ∷ rest) =
    let popped = pop_old window now rest in
    if ltb window (now - front) then popped else front ∷ rest

-- `u32::try_from(n).unwrap_or(u32::MAX)`
abbrev pub to_u32 : ℕ → ℕ
to_u32 n = min n 4294967295

unfoldable pub record_error : RiskEngine → ℕ → RiskEngine
record_error e now =
    let kept = pop_old e.cfg.error_halt_window now (e.errors ++ now ∷ []) in
    record e {
      errors = kept;
      halted =
          if leb e.cfg.error_halt_count (to_u32 (length kept))
          then some HaltReason.consecutive_errors
          else e.halted;
    }

unfoldable pub record_success : RiskEngine → RiskEngine
record_success e = record e { errors = [] }

-- The halt of a test that never rewrites a reason.
abbrev pub first_halt : Option HaltReason → Bool → HaltReason → Option HaltReason
first_halt (some h) trips reason = some h
first_halt none trips reason = if trips then some reason else none

-- `self.cfg.bankroll.0 * self.cfg.daily_drawdown_bps / 10_000`
abbrev pub drawdown_limit : RiskConfig → ℤ
drawdown_limit cfg = div_trunc (cfg.bankroll *ℤ cfg.daily_drawdown_bps) 10000

unfoldable pub update_equity : RiskEngine → Usdc → RiskEngine
update_equity e equity =
    let peak = max_ℤ e.peak_equity equity in
    record e {
      peak_equity = peak;
      halted =
          first_halt e.halted (leb_ℤ (drawdown_limit e.cfg) (peak -ℤ equity))
            HaltReason.daily_drawdown;
    }

abbrev pub loses : Option Usdc → Usdc → Bool
loses none pnl = false
loses (some cap) pnl = leb_ℤ pnl (pos 0 -ℤ cap)

unfoldable pub update_session_pnl : RiskEngine → Usdc → RiskEngine
update_session_pnl e pnl = record e {
  halted = first_halt e.halted (loses e.cfg.session_loss_cap pnl) HaltReason.session_loss;
}

unfoldable pub note_session_starts_in_window : RiskEngine → ℕ → RiskEngine
note_session_starts_in_window e count = record e {
  halted =
      if leb e.cfg.restart_storm_count (to_u32 count)
      then some HaltReason.restart_storm
      else e.halted;
}
