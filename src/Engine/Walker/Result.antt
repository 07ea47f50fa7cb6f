-- ===== src/Engine/Walker/Result.antt =====
-- What `walk` returns.
use polybot.Common.{
  ℕ, zero, suc, ◌≤◌, ◌<◌, ◌≡◌, sym, ap, ap₂, subst, ◌∙◌, Option, none, some, List, arith, inl, inr,
  Bool-cases, false, Option-cases, eq_of_some, ◌==◌, if◌then◌else◌, unwrap_or,
}
use polybot.Common.Int.{ℤ, pos, ◌+ℤ◌, ◌-ℤ◌, ◌≤ℤ◌}
use polybot.Num.{Usdc, Bps, edge_bps}
use polybot.Engine.{LegFill}
use polybot.Engine.Walker.{
  BasketSpec, WalkResult, WalkState, Totals, gate, account, payout_of, collateral_of, settle,
  finish, start, walk_loop, rounds, walk_within, walk, no_legs, round_chunk, state_round,
}
use polybot.Engine.Walker.Loop.{
  walk_loop_stop, walk_loop_more, walk_loop_empty, walk_loop_total, after_round,
}
use polybot.Engine.Walker.Fills.{WalkInv, walk_loop-WalkInv}
use polybot.Engine.Walker.Account.{
  Matches, fills_cash, bought, pos_add, Accounted, account-Accounted,
}

-- What a sized basket promises.
pub record IsSized (spec : BasketSpec) (min_profit : Usdc) (floor : Bps) (w : WalkResult)
    : Type 0 where
  pub positive : 0 < w.units
  pub uniform : Matches w.units spec.legs w.fills
  pub net_is :
      w.net
      ≡ fills_cash w.fills
        +ℤ pos (payout_of spec w.units)
        -ℤ pos (collateral_of spec w.units)
        -ℤ pos spec.gas
  pub basis_is : w.basis ≡ bought w.fills +ℤ pos (collateral_of spec w.units)
  pub edge_is : edge_bps w.net w.basis ≡ some w.edge
  pub profitable : min_profit ≤ℤ w.net
  pub above_floor : floor ≤ℤ w.edge

gate_lem :
    (min_profit : Usdc) (floor : Bps) (units : ℕ) (net basis : Usdc) (fills : List LegFill)
    (edge : Option Bps) (w : WalkResult)
    → gate min_profit floor units net basis fills edge ≡ some w
    → (w.units ≡ units)
      × (w.net ≡ net)
      × (w.basis ≡ basis)
      × (w.fills ≡ fills)
      × (edge ≡ some w.edge)
      × (min_profit ≤ℤ net)
      × (floor ≤ℤ w.edge)
gate_lem min_profit floor units net basis fills none w h = cc
gate_lem min_profit floor units net basis fills (some edge) w h = ground arith

settle-IsSized :
    (spec : BasketSpec) (min_profit : Usdc) (floor : Bps) (u : ℕ) (t : Totals) (w : WalkResult)
    → 0 < u
    → Accounted u spec.legs t
    → settle spec min_profit floor u (some t) ≡ some w
    → IsSized spec min_profit floor w
unfolding settle
settle-IsSized spec min_profit floor u t w h a e =
    let (units, net, basis, fills, edge, profit, floored) =
      gate_lem min_profit floor u (net_of t.cash u) (basis_of_set (pos t.buy_outlay) u) t.fills
        (edge_bps (net_of t.cash u) (basis_of_set (pos t.buy_outlay) u)) w
        (ap
            (λ b.
              gate min_profit floor u (net_of t.cash u) b t.fills (edge_bps (net_of t.cash u) b))
            (sym (pos_add t.buy_outlay (collateral_of spec u)))
          ∙ e) in
    record {
      positive = subst (λ n. 0 < n) (sym units) h;
      uniform =
          subst (λ n. Matches n spec.legs w.fills) (sym units)
            (subst (λ fs. Matches u spec.legs fs) (sym fills) a.uniform);
      net_is = net ∙ ap₂ net_of (a.total_cash ∙ ap fills_cash (sym fills)) (sym units);
      basis_is = basis ∙ ap₂ basis_of_set (a.total_outlay ∙ ap bought (sym fills)) (sym units);
      edge_is = ap₂ edge_bps net basis ∙ edge;
      profitable = subst (λ n. min_profit ≤ℤ n) (sym net) profit;
      above_floor = floored;
    }
  where
    net_of : ℤ → ℕ → ℤ
    net_of cash n = cash +ℤ pos (payout_of spec n) -ℤ pos (collateral_of spec n) -ℤ pos spec.gas

    basis_of_set : ℤ → ℕ → ℤ
    basis_of_set outlay n = outlay +ℤ pos (collateral_of spec n)

finish-IsSized :
    (spec : BasketSpec) (max_basis min_profit : Usdc) (floor : Bps) (s : WalkState) (w : WalkResult)
    → WalkInv spec max_basis s
    → finish spec min_profit floor s ≡ some w
    → IsSized spec min_profit floor w
unfolding finish
finish-IsSized spec max_basis min_profit floor s w v e = elim (Bool-cases (s.units == 0)) [
  | inl z ↦
      cc (ap (λ b. if b then none else settle spec min_profit floor s.units (account s.cursors)) z)
  | inr z ↦
      let some_units : 0 < s.units = positive s.units z in
      let (t, f, a) = account-Accounted s.units s.cursors some_units v.legs_ok in
      settle-IsSized spec min_profit floor s.units t w some_units
        (subst (λ ls. Accounted s.units ls t) v.legs a)
        (sym (
            ap (λ b. if b then none else settle spec min_profit floor s.units (account s.cursors)) z
            ∙ ap (settle spec min_profit floor s.units) f)
          ∙ e)
]
  where
    positive : (n : ℕ) → (n == 0) ≡ false → 0 < n
    positive n z = ground arith

-- Two runs of the loop that both end agree.
walk_loop_det :
    (f g : ℕ) (spec : BasketSpec) (max_basis : Usdc) (s a b : WalkState)
    → walk_loop f spec max_basis s ≡ some a
    → walk_loop g spec max_basis s ≡ some b
    → a ≡ b
walk_loop_det zero g spec max_basis s a b e h = cc (walk_loop_empty spec max_basis s)
walk_loop_det (suc f) zero spec max_basis s a b e h = cc (walk_loop_empty spec max_basis s)
walk_loop_det (suc f) (suc g) spec max_basis s a b e h =
    elim (Option-cases (round_chunk max_basis s.basis_used (state_round spec s))) [
      | inl k ↦ eq_of_some (
          sym e
          ∙ walk_loop_stop f spec max_basis s k
          ∙ sym (walk_loop_stop g spec max_basis s k)
          ∙ h)
      | inr (c, k) ↦
          walk_loop_det f g spec max_basis (after_round spec s c) a b
            (sym (walk_loop_more f spec max_basis s c k) ∙ e)
            (sym (walk_loop_more g spec max_basis s c k) ∙ h)
    ]

-- The answer of `walk` from the state in which the loop ends.
abbrev ended : BasketSpec → Usdc → Bps → WalkState → Option WalkResult
ended spec min_profit floor s = if no_legs spec.legs then none else finish spec min_profit floor s

walk_within_lem :
    (fuel : ℕ) (spec : BasketSpec) (max_basis min_profit : Usdc) (floor : Bps) (s : WalkState)
    → walk_loop fuel spec max_basis (start spec) ≡ some s
    → walk_within fuel spec max_basis min_profit floor ≡ some (ended spec min_profit floor s)
unfolding walk_within
walk_within_lem fuel spec max_basis min_profit floor s e = ground arith

walk_lem :
    (spec : BasketSpec) (max_basis min_profit : Usdc) (floor : Bps)
    → (s : WalkState) × (walk_loop (rounds (start spec).cursors) spec max_basis (start spec)
        ≡ some s)
      × (walk spec max_basis min_profit floor ≡ ended spec min_profit floor s)
unfolding walk
walk_lem spec max_basis min_profit floor =
    let all = rounds (start spec).cursors in
    let (s, e) = walk_loop_total all spec max_basis (start spec) (omega arith) in
    (s, e, ap (λ o. unwrap_or o none) (walk_within_lem all spec max_basis min_profit floor s e))

-- The loop of `walk` ends: with one round for each micro-share that the first leg offers, and one
-- more, or any number above, it gives the same answer, that of `walk`.
pub walk_within-walk :
    (fuel : ℕ) (spec : BasketSpec) (max_basis min_profit : Usdc) (floor : Bps)
    → rounds (start spec).cursors ≤ fuel
    → walk_within fuel spec max_basis min_profit floor ≡ some (walk spec max_basis min_profit floor)
walk_within-walk fuel spec max_basis min_profit floor h =
    let (s, e) = walk_loop_total fuel spec max_basis (start spec) h in
    let (s', e', w) = walk_lem spec max_basis min_profit floor in
    let same =
      walk_loop_det fuel (rounds (start spec).cursors) spec max_basis (start spec) s s' e e' in
    walk_within_lem fuel spec max_basis min_profit floor s e
    ∙ ap some (ap (ended spec min_profit floor) same ∙ sym w)

ended-finish :
    (spec : BasketSpec) (min_profit : Usdc) (floor : Bps) (s : WalkState) (w : WalkResult)
    → ended spec min_profit floor s ≡ some w
    → finish spec min_profit floor s ≡ some w
ended-finish spec min_profit floor s w e = ground arith

-- A basket that `walk` returns has a positive size, which every leg fills, in the order of the legs;
-- its net is the cash of the fills with the floored payout, less the ceiled collateral and the gas;
-- its basis is the cash of the buys and the collateral; its edge is that of the two, and both gates
-- are met.
pub walk-IsSized :
    (spec : BasketSpec) (max_basis min_profit : Usdc) (floor : Bps) (w : WalkResult)
    → walk spec max_basis min_profit floor ≡ some w
    → IsSized spec min_profit floor w
walk-IsSized spec max_basis min_profit floor w h =
    let (s, e, f) = walk_lem spec max_basis min_profit floor in
    finish-IsSized spec max_basis min_profit floor s w
      (walk_loop-WalkInv spec max_basis (rounds (start spec).cursors) s e)
      (ended-finish spec min_profit floor s w (sym f ∙ h))
