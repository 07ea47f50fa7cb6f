-- ===== src/Coordinator/Tests.antt =====
-- The check of a basket of two buys and a split, and a report of two entries for one token.
use polybot.Common.{◌≡◌, ◌+◌, refl, [], ◌∷◌, false, none, arith, lookup, put}
use polybot.Common.Int.{pos, negsuc, ◌+ℤ◌}
use polybot.Num.{TickSize}
use polybot.Engine.{Action, ArbClass, Opportunity}
use polybot.Risk.{RiskConfig, RiskEngine, RiskVerdict, pre_check, check_markets, exposure, reserve}
use polybot.Risk.Caps.{WithinCaps}
use polybot.Coordinator.{
  PositionBook, held_at, basket_check, charge_fills, charge_splits, largest_leg, sum_values,
  apply_report,
}
use polybot.Coordinator.Checks.{basket_check-WithinCaps}
use polybot.Coordinator.Positions.{reported_qty, reported_cost, apply_report_held}

abbrev opportunity : Opportunity
opportunity = record {
  class = ArbClass.c1_long;
  fills =
      record {
        token = 10;
        action = Action.buy;
        ts = TickSize.cent;
        limit_px = 40;
        qty = 1000000;
        cash = negsuc 399999;
      }
      ∷ record {
        token = 11;
        action = Action.buy;
        ts = TickSize.cent;
        limit_px = 45;
        qty = 1000000;
        cash = negsuc 449999;
      }
      ∷ [];
  units = 1000000;
  net = pos 150000;
  basis = pos 850000;
  edge = pos 1764;
  splits = (2, 1000000) ∷ [];
}

abbrev empty_book : PositionBook
empty_book = record { held = []; cash = pos 0 }

apply_report_held_example :
    ((held_at
        (apply_report empty_book ((10, (5, pos 2)) ∷ (10, (3, pos 1)) ∷ []) (negsuc 2) []).0.held
        10).0
      ≡ (held_at empty_book.held 10).0 + reported_qty 10 ((10, (5, pos 2)) ∷ (10, (3, pos 1)) ∷ []))
    × ((held_at
          (apply_report empty_book ((10, (5, pos 2)) ∷ (10, (3, pos 1)) ∷ []) (negsuc 2) []).0.held
          10).1
        ≡ (held_at empty_book.held 10).1
          +ℤ reported_cost 10 ((10, (5, pos 2)) ∷ (10, (3, pos 1)) ∷ []))
    × ((apply_report empty_book ((10, (5, pos 2)) ∷ (10, (3, pos 1)) ∷ []) (negsuc 2) []).0.cash
        ≡ empty_book.cash +ℤ negsuc 2)
apply_report_held_example =
    apply_report_held empty_book ((10, (5, pos 2)) ∷ (10, (3, pos 1)) ∷ []) (negsuc 2) [] 10

abbrev cfg : RiskConfig
cfg = record {
  bankroll = pos 5000000;
  per_market_cap = pos 2000000;
  max_unhedged = pos 1000000;
  max_open_orders = 4;
  max_basket_legs = 3;
  daily_drawdown_bps = pos 200;
  error_halt_count = 2;
  error_halt_window = 50;
  restart_storm_count = 3;
  session_loss_cap = none;
}

abbrev engine : RiskEngine
engine = record {
  cfg = cfg;
  per_market = [];
  global_exposure = pos 0;
  open_orders = 0;
  killed = false;
  paused = false;
  halted = none;
  errors = [];
  peak_equity = pos 0;
}

-- Both tokens are of market 2, which the split charges as well.
checked :
    pre_check engine (basket_check opportunity ((10, 2) ∷ (11, 2) ∷ [])) ≡ RiskVerdict.approved
unfolding pre_check check_markets exposure basket_check charge_fills charge_splits largest_leg
    sum_values put lookup ◌+ℤ◌
checked = refl

engine-WithinCaps : WithinCaps engine
unfolding exposure
engine-WithinCaps = record {
  funds = omega arith;
  orders = omega arith;
  markets = λ m. ground arith;
}

basket_check-WithinCaps_example :
    WithinCaps (reserve engine (basket_check opportunity ((10, 2) ∷ (11, 2) ∷ [])))
basket_check-WithinCaps_example =
    basket_check-WithinCaps engine opportunity ((10, 2) ∷ (11, 2) ∷ []) checked engine-WithinCaps
