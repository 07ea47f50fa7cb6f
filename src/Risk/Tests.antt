-- ===== src/Risk/Tests.antt =====
-- The risk engine on a small session.
use polybot.Common.{◌≡◌, ◌≢◌, ◌↔◌, refl, arith, false, some, none, List, [], ◌∷◌}
use polybot.Common.Int.{pos, ◌+ℤ◌, ◌-ℤ◌, ◌*ℤ◌, div_trunc}
use polybot.Risk.{
  RiskConfig, RiskEngine, BasketCheck, RiskVerdict, RejectReason, HaltReason, pre_check, reserve,
  check_markets, exposure, pop_old, record_error, update_equity, drawdown_limit,
}
use polybot.Risk.Caps.{Admissible, pre_check-Admissible, WithinCaps}
use polybot.Risk.Halts.{
  RiskCall, risk_run, halt_sticky, equities, FallsLess, NoDrawdown, equities-drawdown,
}

abbrev cfg : RiskConfig
cfg = record {
  bankroll = pos 1000;
  per_market_cap = pos 400;
  max_unhedged = pos 300;
  max_open_orders = 4;
  max_basket_legs = 3;
  daily_drawdown_bps = pos 200;
  error_halt_count = 2;
  error_halt_window = 50;
  restart_storm_count = 3;
  session_loss_cap = some (pos 15);
}

abbrev basket : BasketCheck
basket = record {
  total_cost = pos 600;
  max_leg_cost = pos 300;
  legs = 2;
  per_market = (1, pos 300) ∷ (2, pos 300) ∷ [];
}

abbrev engine : RiskEngine
engine = record {
  cfg = cfg;
  global_exposure = pos 100;
  per_market = (2, pos 100) ∷ [];
  open_orders = 1;
  paused = false;
  halted = none;
  killed = false;
  peak_equity = pos 0;
  errors = 70 ∷ 90 ∷ [];
}

abbrev halted_engine : RiskEngine
halted_engine = record engine { halted = some HaltReason.daily_drawdown }

approves : pre_check engine basket ≡ RiskVerdict.approved
unfolding pre_check check_markets exposure ◌+ℤ◌
approves = refl

-- A second basket of the kind exceeds the bankroll.
approves_once :
    pre_check (reserve engine basket) (record basket { legs = 1 })
    ≡ RiskVerdict.rejected RejectReason.bankroll
unfolding pre_check reserve check_markets exposure ◌+ℤ◌
approves_once = refl

halts_on_errors : (record_error engine 110).halted ≡ some HaltReason.consecutive_errors
unfolding record_error pop_old
halts_on_errors = refl

pre_check-Admissible_example :
    (pre_check engine basket ≡ RiskVerdict.approved) ↔ Admissible engine basket
pre_check-Admissible_example = pre_check-Admissible engine basket

engine-WithinCaps : WithinCaps engine
unfolding exposure
engine-WithinCaps = record {
  funds = omega arith;
  orders = omega arith;
  markets = λ m. ground arith;
}

abbrev calls : List RiskCall
calls =
    RiskCall.success ∷ RiskCall.clears_kill ∷ RiskCall.equity (pos 50) ∷ RiskCall.pauses false ∷ []

halt_sticky_example : pre_check (risk_run halted_engine calls) basket ≢ RiskVerdict.approved
halt_sticky_example = halt_sticky halted_engine calls basket (λ h. cc)

equities-drawdown_example : ((equities engine (pos 30 ∷ pos 15 ∷ pos 10 ∷ [])).halted ≡ none) ↔ (
    (engine.halted ≡ none)
    × FallsLess (drawdown_limit cfg) (pos 0) (pos 30 ∷ pos 15 ∷ pos 10 ∷ [])
    × NoDrawdown (drawdown_limit cfg) (pos 30 ∷ pos 15 ∷ pos 10 ∷ []))
equities-drawdown_example = equities-drawdown engine (pos 30 ∷ pos 15 ∷ pos 10 ∷ [])

-- 20 µUSDC below the peak is the limit of 2% of 1000.
halts_on_drawdown :
    (equities engine (pos 30 ∷ pos 15 ∷ pos 10 ∷ [])).halted ≡ some HaltReason.daily_drawdown
unfolding equities update_equity div_trunc ◌-ℤ◌ ◌*ℤ◌
halts_on_drawdown = refl
