-- ===== src/Risk/Ledger.antt =====
-- Reserving and releasing baskets, market by market.
use polybot.Common.{◌≡◌, refl, ◌∙◌, List, [], ◌∷◌, arith, inl, inr, Bool-cases, ◌==◌, if◌then◌else◌}
use polybot.Common.Int.{ℤ, pos, ◌+ℤ◌, ◌-ℤ◌, int_laws}
use polybot.Num.{Usdc}
use polybot.Instrument.{MarketId}
use polybot.Risk.{
  Exposures, exposure, add_exposure, add_markets, sub_markets, RiskEngine, BasketCheck, reserve,
  release,
}

pub exposure-add_exposure :
    (m k : MarketId) (c : ℤ) (es : Exposures)
    → exposure m (add_exposure k c es) ≡ (if k == m then exposure m es +ℤ c else exposure m es)
unfolding exposure add_exposure
exposure-add_exposure m k c [] = ground arith
exposure-add_exposure m k c ((j, v) ∷ es) = ground (arith, exposure-add_exposure m k c es)

-- What a basket costs in market `m`, over all its entries for it.
unfoldable pub cost_in : MarketId → List (MarketId × Usdc) → ℤ
cost_in m [] = pos 0
cost_in m ((k, c) ∷ ms) = if k == m then c +ℤ cost_in m ms else cost_in m ms

pub exposure-add_markets :
    (m : MarketId) (ms : List (MarketId × Usdc)) (es : Exposures)
    → exposure m (add_markets ms es) ≡ exposure m es +ℤ cost_in m ms
unfolding add_markets cost_in
exposure-add_markets m [] es = omega int_laws
exposure-add_markets m ((k, c) ∷ ms) es =
    exposure-add_markets m ms (add_exposure k c es) ∙ (elim (Bool-cases (k == m)) [
      | inl e ↦ rw (exposure-add_exposure m k c es, e) (omega int_laws)
      | inr e ↦ rw (exposure-add_exposure m k c es, e) (omega int_laws)
    ])

pub exposure-sub_markets :
    (m : MarketId) (ms : List (MarketId × Usdc)) (es : Exposures)
    → exposure m (sub_markets ms es) ≡ exposure m es -ℤ cost_in m ms
unfolding sub_markets cost_in
exposure-sub_markets m [] es = omega int_laws
exposure-sub_markets m ((k, c) ∷ ms) es =
    exposure-sub_markets m ms (add_exposure k (pos 0 -ℤ c) es) ∙ (elim (Bool-cases (k == m)) [
      | inl e ↦ rw (exposure-add_exposure m k (pos 0 -ℤ c) es, e) (omega int_laws)
      | inr e ↦ rw (exposure-add_exposure m k (pos 0 -ℤ c) es, e) (omega int_laws)
    ])

-- Releasing a reserved basket restores the global exposure, the open orders and the exposure of every
-- market, whatever the basket lists, and touches nothing else.
pub release-reserve :
    (e : RiskEngine) (b : BasketCheck) (m : MarketId)
    → let e' = release (reserve e b) b in
      (e'.global_exposure ≡ e.global_exposure)
      × (e'.open_orders ≡ e.open_orders)
      × (exposure m e'.per_market ≡ exposure m e.per_market)
      × (e'.halted ≡ e.halted)
      × (e'.killed ≡ e.killed)
      × (e'.paused ≡ e.paused)
unfolding release reserve
release-reserve e b m = (
  omega int_laws,
  omega arith,
  exposure-sub_markets m b.per_market (add_markets b.per_market e.per_market)
      ∙ rw (exposure-add_markets m b.per_market e.per_market) (omega int_laws),
  refl,
  refl,
  refl,
)
