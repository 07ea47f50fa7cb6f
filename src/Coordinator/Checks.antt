-- ===== src/Coordinator/Checks.antt =====
-- The risk check that is built for an opportunity, in the risk engine.
use polybot.Common.{
  ℕ, ◌<◌, ◌≡◌, Option, none, some, List, [], ◌∷◌, arith, ◌==◌, false, lookup, Above, IsSorted,
  put-IsSorted,
}
use polybot.Common.Int.{ℤ, pos}
use polybot.Num.{Qty}
use polybot.Instrument.{MarketId, TokenId}
use polybot.Engine.{Action, LegFill, Opportunity}
use polybot.Risk.{RiskEngine, RiskVerdict, pre_check, reserve}
use polybot.Risk.Caps.{Absent, DistinctMarkets, WithinCaps, reserve-WithinCaps}
use polybot.Coordinator.{
  add_at, charge_fill, charge_fills, charge_splits, cash_magnitude, basket_check,
}

charge_fill-IsSorted :
    (xs : List (ℕ × ℤ)) (a : Action) (o : Option MarketId) (c : ℕ)
    → IsSorted xs
    → IsSorted (charge_fill xs a o c)
charge_fill-IsSorted xs Action.buy (some m) c s = put-IsSorted xs m _ s
charge_fill-IsSorted xs Action.buy none c s = s
charge_fill-IsSorted xs Action.sell o c s = s

charge_fills-IsSorted :
    (tm : List (TokenId × MarketId)) (xs : List (ℕ × ℤ)) (fs : List LegFill)
    → IsSorted xs
    → IsSorted (charge_fills tm xs fs)
unfolding charge_fills
charge_fills-IsSorted tm xs [] s = s
charge_fills-IsSorted tm xs (f ∷ fs) s =
    charge_fills-IsSorted tm (charge_fill xs f.action (lookup tm f.token) (cash_magnitude f)) fs
      (charge_fill-IsSorted xs f.action (lookup tm f.token) (cash_magnitude f) s)

charge_splits-IsSorted :
    (xs : List (ℕ × ℤ)) (ss : List (MarketId × Qty)) → IsSorted xs → IsSorted (charge_splits xs ss)
unfolding charge_splits
charge_splits-IsSorted xs [] s = s
charge_splits-IsSorted xs ((m, u) ∷ ss) s =
    charge_splits-IsSorted (add_at xs m (pos u)) ss (put-IsSorted xs m _ s)

Above-Absent : (k : ℕ) (xs : List (ℕ × ℤ)) → Above k xs → Absent k xs
Above-Absent k [] a = tt
Above-Absent k ((t, v) ∷ xs) a = (other t k a.0, Above-Absent k xs a.1)
  where
    other : (t k : ℕ) → k < t → (t == k) ≡ false
    other t k h = ground arith

IsSorted-DistinctMarkets : (xs : List (ℕ × ℤ)) → IsSorted xs → DistinctMarkets xs
IsSorted-DistinctMarkets [] s = tt
IsSorted-DistinctMarkets ((t, v) ∷ xs) s = (Above-Absent t xs s.0, IsSorted-DistinctMarkets xs s.1)

-- Whatever the fills and splits of an opportunity, reserving the check that is built for it, once it
-- is approved, keeps the bankroll, the limit of open orders and the cap of every market.
pub basket_check-WithinCaps :
    (e : RiskEngine) (opp : Opportunity) (tm : List (TokenId × MarketId))
    → pre_check e (basket_check opp tm) ≡ RiskVerdict.approved
    → WithinCaps e
    → WithinCaps (reserve e (basket_check opp tm))
unfolding basket_check
basket_check-WithinCaps e opp tm h w =
    reserve-WithinCaps e (basket_check opp tm) h
      (IsSorted-DistinctMarkets (basket_check opp tm).per_market
        (charge_splits-IsSorted _ opp.splits (charge_fills-IsSorted tm [] opp.fills tt)))
      w
