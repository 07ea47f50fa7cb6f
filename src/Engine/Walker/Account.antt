-- ===== src/Engine/Walker/Account.antt =====
-- The accounting of the fills of a walk.
use polybot.Common.{ℕ, ◌+◌, ◌<◌, ◌≡◌, refl, ap, ap₂, ◌∙◌, Option, some, List, [], ◌∷◌, arith}
use polybot.Common.Int.{ℤ, pos, negsuc, pos_part, neg_part, ◌+ℤ◌, ◌-ℤ◌, int_laws}
use polybot.Num.{Px, buy_cost, fee_microusdc, microusdc}
use polybot.Engine.{Action, LegFill}
use polybot.Engine.Walker.{
  LegSpec, Cursor, LegTotals, Totals, account_seg, account_segs, no_totals, add_leg, account,
  level_sum,
}
use polybot.Engine.Walker.Fills.{LegsOk, legs_of}

-- One fill of `u` for each leg, in the order of the legs.
abbrev pub Matches : ℕ → List LegSpec → List LegFill → Type 0
Matches u [] [] = Unit {0}
Matches u [] (f ∷ fs) = ⊥
Matches u (l ∷ ls) [] = ⊥
Matches u (l ∷ ls) (f ∷ fs) =
    ((f.qty ≡ u) × (f.token ≡ l.token) × (f.action ≡ l.action) × (f.ts ≡ l.ladder.ts))
    × Matches u ls fs

-- The cash of the fills, negative where it is paid.
unfoldable pub fills_cash : List LegFill → ℤ
fills_cash [] = pos 0
fills_cash (f ∷ fs) = f.cash +ℤ fills_cash fs

abbrev paid : Action → ℤ → ℤ
paid Action.buy cash = pos 0 -ℤ cash
paid Action.sell cash = pos 0

-- The cash paid for the buys.
unfoldable pub bought : List LegFill → ℤ
bought [] = pos 0
bought (f ∷ fs) = paid f.action f.cash +ℤ bought fs

account_segs-qty :
    (leg : LegSpec) (a : Action) (t : LegTotals) (p q : ℕ)
    → (account_seg leg t a p q).qty ≡ t.qty + q
unfolding account_seg
account_segs-qty leg Action.buy t p q = refl
account_segs-qty leg Action.sell t p q = refl

account_segs_sum :
    (leg : LegSpec) (ss : List (Px × ℕ)) (t : LegTotals)
    → (account_segs leg t ss).qty ≡ t.qty + level_sum ss
unfolding account_segs
account_segs_sum leg [] t = omega arith
account_segs_sum leg ((p, q) ∷ ss) t = omega (
  arith,
  account_segs_sum leg ss (account_seg leg t leg.action p q),
  account_segs-qty leg leg.action t p q,
)

-- The worst price is known once there is a segment.
abbrev Known : Option Px → Type 0
Known o = (p : Px) × (o ≡ some p)

account_seg-Known :
    (leg : LegSpec) (a : Action) (t : LegTotals) (p q : ℕ) → Known (account_seg leg t a p q).worst
unfolding account_seg
account_seg-Known leg Action.buy t p q = (p, refl)
account_seg-Known leg Action.sell t p q = (p, refl)

account_segs-Known :
    (leg : LegSpec) (ss : List (Px × ℕ)) (t : LegTotals)
    → Known t.worst
    → Known (account_segs leg t ss).worst
unfolding account_segs
account_segs-Known leg [] t h = h
account_segs-Known leg ((p, q) ∷ ss) t h =
    account_segs-Known leg ss _ (account_seg-Known leg leg.action t p q)

filled-Known :
    (leg : LegSpec) (ss : List (Px × ℕ))
    → 0 < level_sum ss
    → Known (account_segs leg no_totals ss).worst
unfolding account_segs
filled-Known leg [] h = absurd (omega arith)
filled-Known leg ((p, q) ∷ ss) h =
    account_segs-Known leg ss _ (account_seg-Known leg leg.action no_totals p q)

-- The outlay of a leg is what its buys pay.
abbrev Balanced : Action → LegTotals → Type 0
Balanced Action.buy t = t.outlay + pos_part t.leg_cash ≡ neg_part t.leg_cash
Balanced Action.sell t = t.outlay ≡ 0

outlay-paid : (a : Action) (t : LegTotals) → Balanced a t → pos t.outlay ≡ paid a t.leg_cash
outlay-paid Action.buy t h = omega int_laws
outlay-paid Action.sell t h = ap pos h

account_seg-Balanced :
    (leg : LegSpec) (a : Action) (t : LegTotals) (p q : ℕ)
    → Balanced a t
    → Balanced a (account_seg leg t a p q)
unfolding account_seg ◌-ℤ◌
account_seg-Balanced leg Action.buy t p q h =
    paying _ t.leg_cash
      (buy_cost (microusdc p leg.ladder.ts) q
        + fee_microusdc leg.fee_bps (microusdc p leg.ladder.ts) q)
      h
  where
    paying :
        (outlay : ℕ) (cash : ℤ) (cost : ℕ)
        → outlay + pos_part cash ≡ neg_part cash
        → outlay + cost + pos_part (cash -ℤ pos cost) ≡ neg_part (cash -ℤ pos cost)
    paying outlay (pos n) cost h = ground arith
    paying outlay (negsuc n) cost h = ground arith
account_seg-Balanced leg Action.sell t p q h = h

account_segs-Balanced :
    (leg : LegSpec) (ss : List (Px × ℕ)) (t : LegTotals)
    → Balanced leg.action t
    → Balanced leg.action (account_segs leg t ss)
unfolding account_segs
account_segs-Balanced leg [] t h = h
account_segs-Balanced leg ((p, q) ∷ ss) t h =
    account_segs-Balanced leg ss _ (account_seg-Balanced leg leg.action t p q h)

no_totals-Balanced : (a : Action) → Balanced a no_totals
no_totals-Balanced Action.buy = omega arith
no_totals-Balanced Action.sell = refl

pub pos_add : (a b : ℕ) → pos (a + b) ≡ pos a +ℤ pos b
pos_add a b = omega int_laws

-- The accounting of all legs.
pub record Accounted (u : ℕ) (legs : List LegSpec) (t : Totals) : Type 0 where
  pub uniform : Matches u legs t.fills
  pub total_cash : t.cash ≡ fills_cash t.fills
  pub total_outlay : pos t.buy_outlay ≡ bought t.fills

pub account-Accounted :
    (u : ℕ) (cs : List Cursor)
    → 0 < u
    → LegsOk u cs
    → (t : Totals) × (account cs ≡ some t) × Accounted u (legs_of cs) t
unfolding account fills_cash bought
account-Accounted u [] h v =
    (_, refl, record { uniform = tt; total_cash = refl; total_outlay = refl })
account-Accounted u (c ∷ cs) h v =
    let t = account_segs c.leg no_totals c.segs in
    let (worst, known) = filled-Known c.leg c.segs (omega (arith, v.0.filled)) in
    let (r, e, a) = account-Accounted u cs h v.1 in
    let sum : t.qty ≡ u = omega (arith, account_segs_sum c.leg c.segs no_totals, v.0.filled) in
    let balanced = account_segs-Balanced c.leg c.segs no_totals (no_totals-Balanced c.leg.action) in
    (
      _,
      ap (λ o. add_leg c.leg t o (account cs)) known ∙ ap (add_leg c.leg t (some worst)) e,
      record {
        uniform = ((sum, refl, refl, refl), a.uniform);
        total_cash = ap (◌+ℤ◌ t.leg_cash) a.total_cash;
        total_outlay =
            pos_add t.outlay r.buy_outlay
            ∙ ap₂ ◌+ℤ◌ (outlay-paid c.leg.action t balanced) a.total_outlay;
      },
    )
