-- ===== src/Risk/Caps.antt =====
-- What an approved basket guarantees.
use polybot.Common.{
  ◌+◌, ◌≤◌, ◌≡◌, refl, ◌↔◌, false, none, List, [], ◌∷◌, arith, inl, inr, Bool-cases, ◌==◌, ==_iff,
  subst,
}
use polybot.Common.Int.{ℤ, pos, ◌+ℤ◌, ◌≤ℤ◌, int_laws}
use polybot.Num.{Usdc}
use polybot.Risk.Ledger.{cost_in, exposure-add_markets}
use polybot.Instrument.{MarketId}
use polybot.Risk.{
  Exposures, exposure, check_markets, RiskEngine, BasketCheck, RiskVerdict, pre_check, reserve,
}

-- Every listed cost fits under the cap with what is there.
abbrev pub MarketsFit : ℤ → Exposures → List (MarketId × Usdc) → Type 0
MarketsFit cap es [] = Unit {0}
MarketsFit cap es ((m, c) ∷ ms) = (exposure m es +ℤ c ≤ℤ cap) × MarketsFit cap es ms

check_markets_sound :
    (cap : ℤ) (es : Exposures) (ms : List (MarketId × Usdc))
    → check_markets cap es ms ≡ RiskVerdict.approved
    → MarketsFit cap es ms
unfolding check_markets
check_markets_sound cap es [] h = tt
check_markets_sound cap es ((m, c) ∷ ms) h = ground (arith, check_markets_sound cap es ms)

check_markets_complete :
    (cap : ℤ) (es : Exposures) (ms : List (MarketId × Usdc))
    → MarketsFit cap es ms
    → check_markets cap es ms ≡ RiskVerdict.approved
unfolding check_markets
check_markets_complete cap es [] h = refl
check_markets_complete cap es ((m, c) ∷ ms) h = ground (arith, check_markets_complete cap es ms h.1)

-- What a basket must meet to be dispatched.
pub record Admissible (e : RiskEngine) (b : BasketCheck) : Type 0 where
  pub alive : e.killed ≡ false
  pub running : e.halted ≡ none
  pub unpaused : e.paused ≡ false
  pub few_legs : b.legs ≤ e.cfg.max_basket_legs
  pub few_orders : e.open_orders + b.legs ≤ e.cfg.max_open_orders
  pub hedged : b.max_leg_cost ≤ℤ e.cfg.max_unhedged
  pub funded : e.global_exposure +ℤ b.total_cost ≤ℤ e.cfg.bankroll
  pub markets_fit : MarketsFit e.cfg.per_market_cap e.per_market b.per_market

-- A basket is approved exactly if no switch is set and it meets every cap.
pub pre_check-Admissible :
    (e : RiskEngine) (b : BasketCheck) → (pre_check e b ≡ RiskVerdict.approved) ↔ Admissible e b
unfolding pre_check
pre_check-Admissible e b = (
  (λ h. record {
    alive = ground arith;
    running = ground arith;
    unpaused = ground arith;
    few_legs = ground arith;
    few_orders = ground arith;
    hedged = ground arith;
    funded = ground arith;
    markets_fit = check_markets_sound e.cfg.per_market_cap e.per_market b.per_market (ground arith);
  }),
  (λ a.
      ground (
        arith,
        check_markets_complete e.cfg.per_market_cap e.per_market b.per_market a.markets_fit,
      )),
)

-- No entry of the list is for market `m`.
abbrev pub Absent : MarketId → List (MarketId × Usdc) → Type 0
Absent m [] = Unit {0}
Absent m ((k, c) ∷ ms) = ((k == m) ≡ false) × Absent m ms

-- Each market is listed once at most.
abbrev pub DistinctMarkets : List (MarketId × Usdc) → Type 0
DistinctMarkets [] = Unit {0}
DistinctMarkets ((m, c) ∷ ms) = Absent m ms × DistinctMarkets ms

cost_in-Absent : (m : MarketId) (ms : List (MarketId × Usdc)) → Absent m ms → cost_in m ms ≡ pos 0
unfolding cost_in
cost_in-Absent m [] h = refl
cost_in-Absent m ((k, c) ∷ ms) h = ground (arith, cost_in-Absent m ms h.1)

-- With distinct markets the separate tests bound the sum.
cost_in-fits :
    (cap : ℤ) (es : Exposures) (ms : List (MarketId × Usdc)) (m : MarketId)
    → DistinctMarkets ms
    → MarketsFit cap es ms
    → exposure m es ≤ℤ cap
    → exposure m es +ℤ cost_in m ms ≤ℤ cap
unfolding cost_in
cost_in-fits cap es [] m d f h = omega (int_laws, h)
cost_in-fits cap es ((k, c) ∷ ms) m d f h = elim (Bool-cases (k == m)) [
  | inl e ↦
      let same : k ≡ m = (==_iff k m).0 e in
      let gone : cost_in m ms ≡ pos 0 = cost_in-Absent m ms (subst (λ j. Absent j ms) same d.0) in
      let fit : exposure m es +ℤ c ≤ℤ cap = subst (λ j. exposure j es +ℤ c ≤ℤ cap) same f.0 in
      rw (e, gone) (omega int_laws)
  | inr e ↦ rw e (cost_in-fits cap es ms m d.1 f.1 h)
]

-- The caps hold for what is reserved and committed.
pub record WithinCaps (e : RiskEngine) : Type 0 where
  pub funds : e.global_exposure ≤ℤ e.cfg.bankroll
  pub orders : e.open_orders ≤ e.cfg.max_open_orders
  pub markets : (m : MarketId) → exposure m e.per_market ≤ℤ e.cfg.per_market_cap

-- Reserving an approved basket that lists each market once keeps the bankroll, the limit of open
-- orders and the cap of every market.
pub reserve-WithinCaps :
    (e : RiskEngine) (b : BasketCheck)
    → pre_check e b ≡ RiskVerdict.approved
    → DistinctMarkets b.per_market
    → WithinCaps e
    → WithinCaps (reserve e b)
unfolding reserve
reserve-WithinCaps e b h d w =
    let a = (pre_check-Admissible e b).0 h in
    record {
      funds = a.funded;
      orders = a.few_orders;
      markets = λ m. rw (exposure-add_markets m b.per_market e.per_market) (
          cost_in-fits e.cfg.per_market_cap e.per_market b.per_market m d a.markets_fit
            (w.markets m));
    }
