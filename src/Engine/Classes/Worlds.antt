-- ===== src/Engine/Classes/Worlds.antt =====
-- The worlds in which a market, a partition and a relationship resolve, and what every opportunity
-- makes in them.
use polybot.Common.{
  ℕ, ◌+◌, ◌*◌, ◌/◌, ◌≤◌, ◌≡◌, refl, ap, ◌∙◌, subst, Bool, not, Option, none, some, List, [], ◌∷◌,
  ◌++◌, arith, if◌then◌else◌,
}
use polybot.Common.Int.{◌≤ℤ◌}
use polybot.Num.{Qty, Bps}
use polybot.Book.{Book}
use polybot.Instrument.{MarketId, Market}
use polybot.Engine.{ArbClass, Opportunity, EngineParams}
use polybot.Engine.Walker.{BasketSpec, WalkResult, walk, into_opportunity, collateral_of}
use polybot.Engine.Classes.{emit, emit_split, class1_long, class1_short, class1_detect, long_gas}
use polybot.Engine.Classes.Riskless.{World, outcome, winning, walk-outcome}

abbrev pub All {ℓ} : {A : Type ℓ} → (A → Type 0) → List A → Type 0
All P [] = Unit {0}
All P (x ∷ xs) = P x × All P xs

pub All-append {ℓ} :
    {A : Type ℓ} (P : A → Type 0) (xs ys : List A) → All P xs → All P ys → All P (xs ++ ys)
All-append P [] ys h k = k
All-append P (x ∷ xs) ys h k = (h.0, All-append P xs ys h.1 k)

-- One dollar for each share that is split.
abbrev pub split_cost : List (MarketId × Qty) → ℕ
split_cost [] = 0
split_cost ((m, q) ∷ ss) = q + split_cost ss

-- The gas that a class of opportunity is charged.
abbrev pub gas_of : EngineParams → ArbClass → ℕ
gas_of p ArbClass.c1_long = long_gas p
gas_of p ArbClass.c1_short = p.gas.split
gas_of p ArbClass.c2_short = p.gas.negrisk_convert
gas_of p c = p.gas.redeem

-- After settlement, splits and gas an opportunity leaves the minimum profit.
abbrev pub IsRiskless : World → EngineParams → Opportunity → Type 0
IsRiskless win p o = p.min_profit ≤ℤ outcome win o.fills (split_cost o.splits) (gas_of p o.class)

pub emit-IsRiskless :
    (win : World) (p : EngineParams) (spec : BasketSpec) (class : ArbClass) (k : ℕ) (floor : Bps)
    (o : Option WalkResult)
    → walk spec p.max_basis p.min_profit floor ≡ o
    → spec.payout_per_share ≡ k * 1000000
    → spec.collateral_per_share ≡ 0
    → spec.gas ≡ gas_of p class
    → k ≤ winning win spec.legs
    → All (IsRiskless win p) (emit class o)
unfolding into_opportunity
emit-IsRiskless win p spec class k floor none e pays free gas h = tt
emit-IsRiskless win p spec class k floor (some w) e pays free gas h =
    let no_split : collateral_of spec w.units ≡ 0 =
      ap (λ c. (c * w.units + 999999) / 1000000) free ∙ omega arith in
    (
      subst (λ c. p.min_profit ≤ℤ outcome win w.fills c (gas_of p class)) no_split
          (subst (λ g. p.min_profit ≤ℤ outcome win w.fills (collateral_of spec w.units) g) gas
            (walk-outcome win spec k p.max_basis p.min_profit floor w pays h e)),
      tt,
    )

emit_split-IsRiskless :
    (win : World) (p : EngineParams) (spec : BasketSpec) (m : MarketId) (floor : Bps)
    (o : Option WalkResult)
    → walk spec p.max_basis p.min_profit floor ≡ o
    → spec.payout_per_share ≡ 0
    → spec.collateral_per_share ≡ 1000000
    → spec.gas ≡ p.gas.split
    → All (IsRiskless win p) (emit_split m o)
unfolding into_opportunity
emit_split-IsRiskless win p spec m floor none e pays costs gas = tt
emit_split-IsRiskless win p spec m floor (some w) e pays costs gas =
    let split : collateral_of spec w.units ≡ w.units + 0 =
      ap (λ c. (c * w.units + 999999) / 1000000) costs ∙ omega arith in
    (
      subst (λ c. p.min_profit ≤ℤ outcome win w.fills c p.gas.split) split
          (subst (λ g. p.min_profit ≤ℤ outcome win w.fills (collateral_of spec w.units) g) gas
            (walk-outcome win spec 0 p.max_basis p.min_profit floor w (pays ∙ omega arith)
              (omega arith) e)),
      tt,
    )

one_of_two : (a b : Bool) → b ≡ not a → 1 ≤ (if a then 1 else 0) + ((if b then 1 else 0) + 0)
one_of_two a b h = ground arith

-- Where exactly one of a market's tokens wins, every opportunity of `class1_detect` leaves at least
-- the minimum profit: cash of its fills and settlement, less splits and gas.
pub class1_detect-IsRiskless :
    (win : World) (m : Market) (yes_book no_book : Book) (p : EngineParams)
    → win m.no_token ≡ not (win m.yes_token)
    → All (IsRiskless win p) (class1_detect m yes_book no_book p)
unfolding class1_detect
class1_detect-IsRiskless win m yes_book no_book p h =
    All-append (IsRiskless win p) _ _
      (emit-IsRiskless win p (class1_long m yes_book no_book p) ArbClass.c1_long 1 p.floor_c12 _
        refl (omega arith) refl refl (one_of_two (win m.yes_token) (win m.no_token) h))
      (emit_split-IsRiskless win p (class1_short m yes_book no_book p) m.id p.floor_c12 _ refl refl
        refl refl)
