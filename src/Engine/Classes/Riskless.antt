-- ===== src/Engine/Classes/Riskless.antt =====
-- What a sized basket makes in a world where the tokens pay out.
use polybot.Common.{
  ℕ, ◌+◌, ◌*◌, ◌/◌, ◌≤◌, ◌≡◌, ap, ◌∙◌, subst, Bool, true, false, some, List, [], ◌∷◌, arith,
  if◌then◌else◌,
}
use polybot.Common.Int.{ℤ, pos, ◌+ℤ◌, ◌-ℤ◌, ◌≤ℤ◌, int_laws}
use polybot.Num.{Usdc, Bps}
use polybot.Instrument.{TokenId}
use polybot.Engine.{Action, LegFill}
use polybot.Engine.Walker.{LegSpec, BasketSpec, WalkResult, payout_of, collateral_of, walk}
use polybot.Engine.Walker.Result.{walk-IsSized}
use polybot.Engine.Walker.Account.{Matches, fills_cash}
use native.Mathlib.Nat.{mul-le-mul_right, mul-div_cancel}

-- Which tokens pay one dollar for a share.
abbrev pub World : Type 0
World = TokenId → Bool

-- A winning token that was bought is worth a micro-dollar for a micro-share.
abbrev pub settled_one : World → Action → TokenId → ℕ → ℕ
settled_one win Action.buy t q = if win t then q else 0
settled_one win Action.sell t q = 0

unfoldable pub settled : World → List LegFill → ℕ
settled win [] = 0
settled win (f ∷ fs) = settled_one win f.action f.token f.qty + settled win fs

abbrev pub wins_one : World → Action → TokenId → ℕ
wins_one win Action.buy t = if win t then 1 else 0
wins_one win Action.sell t = 0

-- The buys of a basket whose token wins.
abbrev pub winning : World → List LegSpec → ℕ
winning win [] = 0
winning win (l ∷ ls) = wins_one win l.action l.token + winning win ls

settled_one_lem :
    (win : World) (a : Action) (t : TokenId) (u : ℕ) → settled_one win a t u ≡ wins_one win a t * u
settled_one_lem win Action.buy t u = if_mul (win t)
  where
    if_mul : (b : Bool) → (if b then u else 0) ≡ (if b then 1 else 0) * u
    if_mul true = omega arith
    if_mul false = omega arith
settled_one_lem win Action.sell t u = omega arith

settled_lem :
    (win : World) (u : ℕ) (ls : List LegSpec) (fs : List LegFill)
    → Matches u ls fs
    → settled win fs ≡ winning win ls * u
unfolding settled
settled_lem win u [] [] m = omega arith
settled_lem win u [] (f ∷ fs) m = absurd m
settled_lem win u (l ∷ ls) [] m = absurd m
settled_lem win u (l ∷ ls) (f ∷ fs) ((qty, token, action, ts), m) =
    let head : settled_one win f.action f.token f.qty ≡ wins_one win l.action l.token * u =
      ap (λ q. settled_one win f.action f.token q) qty
      ∙ ap (λ t. settled_one win f.action t u) token
      ∙ ap (λ a. settled_one win a l.token u) action
      ∙ settled_one_lem win l.action l.token u in
    omega (arith, head, settled_lem win u ls fs m)

-- The cash of a basket after settlement, the splits and the gas paid.
abbrev pub outcome : World → List LegFill → ℕ → ℕ → ℤ
outcome win fills split gas = fills_cash fills +ℤ pos (settled win fills) -ℤ pos split -ℤ pos gas

payout_of_whole : (k u : ℕ) → k * 1000000 * u / 1000000 ≡ k * u
payout_of_whole k u =
    let swapped : k * 1000000 * u ≡ k * u * 1000000 = omega arith in
    ap (λ n. n / 1000000) swapped ∙ mul-div_cancel (k * u) (omega arith)

better_paid :
    (cash least : ℤ) (paid got split gas : ℕ)
    → paid ≤ got
    → least ≤ℤ cash +ℤ pos paid -ℤ pos split -ℤ pos gas
    → least ≤ℤ cash +ℤ pos got -ℤ pos split -ℤ pos gas
better_paid cash least paid got split gas h k = omega int_laws

-- A basket paid `k` dollars for each share, of whose bought tokens `k` at least win.
pub walk-outcome :
    (win : World) (spec : BasketSpec) (k : ℕ) (max_basis min_profit : Usdc) (floor : Bps)
    (w : WalkResult)
    → spec.payout_per_share ≡ k * 1000000
    → k ≤ winning win spec.legs
    → walk spec max_basis min_profit floor ≡ some w
    → min_profit ≤ℤ outcome win w.fills (collateral_of spec w.units) spec.gas
walk-outcome win spec k max_basis min_profit floor w p h e =
    let v = walk-IsSized spec max_basis min_profit floor w e in
    let paid : payout_of spec w.units ≡ k * w.units =
      ap (λ n. n * w.units / 1000000) p ∙ payout_of_whole k w.units in
    let enough : payout_of spec w.units ≤ settled win w.fills = omega (
      arith,
      paid,
      settled_lem win w.units spec.legs w.fills v.uniform,
      mul-le-mul_right w.units h,
    ) in
    better_paid (fills_cash w.fills) min_profit _ _ _ _ enough
      (subst (λ n. min_profit ≤ℤ n) v.net_is v.profitable)
