-- ===== src/Num/Rounding.antt =====
-- The cash arithmetic of crates/core/src/num.rs against exact values.
use native.Mathlib.Nat.{div-add-mod, mod-lt, mul-le-mul_right}
use polybot.Common.{
  zero, refl, ℕ, suc, ◌+◌, ◌*◌, ◌≤◌, ◌<◌, ◌≡◌, arith, some, none, ok, ◌⊎◌, inl, inr,
}
use polybot.Common.Int.{ℤ, pos, negsuc, pos_part, neg_part, ◌*ℤ◌, ◌≤ℤ◌, ◌<ℤ◌, div_floor}
use polybot.Num.{
  TickSize, Px, Qty, levels, unit_microusdc, px_new, microusdc, buy_cost, sell_proceeds, i32_min,
  i32_max, clamp_i32, edge_bps,
}

-- A constructed price lies strictly between 0 and one dollar.
pub px_new_interior :
    (t : ℕ) (ts : TickSize) {p : Px}
    → px_new t ts ≡ ok p
    → (p ≡ t) × (0 < microusdc p ts) × (microusdc p ts < 1000000)
unfolding px_new microusdc levels unit_microusdc
px_new_interior t TickSize.cent h = ground arith
px_new_interior t TickSize.milli h = ground arith

-- The cost of a buy is the least whole µUSDC that is at least the exact value px·qty/10⁶, the
-- proceeds of a sell the greatest that is at most it, and they differ by one at most.
pub rounding_against_us :
    (px : ℕ) (q : Qty)
    → (px * q ≤ buy_cost px q * 1000000)
      × (buy_cost px q * 1000000 < px * q + 1000000)
      × (sell_proceeds px q * 1000000 ≤ px * q)
      × (px * q < sell_proceeds px q * 1000000 + 1000000)
      × (sell_proceeds px q ≤ buy_cost px q)
      × (buy_cost px q ≤ sell_proceeds px q + 1)
unfolding buy_cost sell_proceeds
rounding_against_us px q = omega arith

-- Filling in two chunks never costs less and never brings in more than filling at once, and loses
-- one µUSDC at most.
pub rounding_of_split :
    (px : ℕ) (q r : Qty)
    → (buy_cost px (q + r) ≤ buy_cost px q + buy_cost px r)
      × (buy_cost px q + buy_cost px r ≤ buy_cost px (q + r) + 1)
      × (sell_proceeds px q + sell_proceeds px r ≤ sell_proceeds px (q + r))
      × (sell_proceeds px (q + r) ≤ sell_proceeds px q + sell_proceeds px r + 1)
unfolding buy_cost sell_proceeds
rounding_of_split px q r = omega arith

-- `k` is the floor of a/d.
abbrev pub IsFloor : ℤ → ℕ → ℤ → Type 0
IsFloor a d k =
    (pos_part k * d + neg_part a ≤ pos_part a + neg_part k * d)
    × (pos_part a + neg_part k * d < pos_part k * d + neg_part a + d)

div_floor-IsFloor : (a : ℤ) (d : ℕ) → 0 < d → IsFloor a d (div_floor a d)
unfolding div_floor
div_floor-IsFloor (pos n) d h = grind (arith, div-add-mod n d, mod-lt n h)
div_floor-IsFloor (negsuc n) d h = grind (arith, div-add-mod n d, mod-lt n h)

times_10000 :
    (a : ℤ)
    → (pos_part (a *ℤ pos 10000) ≡ pos_part a * 10000)
      × (neg_part (a *ℤ pos 10000) ≡ neg_part a * 10000)
unfolding ◌*ℤ◌
times_10000 (pos n) = ground arith
times_10000 (negsuc n) = ground arith

clamp_bounds : (k : ℤ) → (i32_min ≤ℤ clamp_i32 k) × (clamp_i32 k ≤ℤ i32_max)
unfolding clamp_i32
clamp_bounds k = ground arith

clamp_low : (k : ℤ) → (clamp_i32 k ≡ i32_min) ⊎ (clamp_i32 k ≤ℤ k)
unfolding clamp_i32
clamp_low k = ground arith

clamp_high : (k : ℤ) → (clamp_i32 k ≡ i32_max) ⊎ (k ≤ℤ clamp_i32 k)
unfolding clamp_i32
clamp_high k = ground arith

scale_le :
    (e k : ℤ) (d : ℕ) → e ≤ℤ k → pos_part e * d + neg_part k * d ≤ pos_part k * d + neg_part e * d
scale_le e k d h = omega (arith, mul-le-mul_right d h)

-- The edge exists exactly for a positive basis, and fits an `i32`. Unless it is the least `i32`, it
-- does not overstate net/basis; unless it is the greatest, it is less than one basis point below.
pub edge_bps_floors :
    (net basis : ℤ)
    → ((basis ≤ℤ pos 0) × (edge_bps net basis ≡ none))
      ⊎ ((pos 0 <ℤ basis)
          × ((e : ℤ) × (edge_bps net basis ≡ some e)
              × (i32_min ≤ℤ e)
              × (e ≤ℤ i32_max)
              × ((e ≡ i32_min)
                  ⊎ (pos_part e * pos_part basis + neg_part net * 10000
                      ≤ pos_part net * 10000 + neg_part e * pos_part basis))
              × ((e ≡ i32_max)
                  ⊎ (pos_part net * 10000 + neg_part e * pos_part basis
                      < pos_part e * pos_part basis + neg_part net * 10000 + pos_part basis))))
unfolding edge_bps
edge_bps_floors net (negsuc b) = inl (omega arith, ground arith)
edge_bps_floors net (pos zero) = inl (omega arith, refl)
edge_bps_floors net (pos (suc b)) =
    inr (omega arith, (e, ground arith, (clamp_bounds k).0, (clamp_bounds k).1, above, below))
  where
    k : ℤ
    k = div_floor (net *ℤ pos 10000) (suc b)

    e : ℤ
    e = clamp_i32 k

    f : IsFloor (net *ℤ pos 10000) (suc b) k
    f = div_floor-IsFloor (net *ℤ pos 10000) (suc b) (omega arith)

    above :
        (e ≡ i32_min)
        ⊎ (pos_part e * suc b + neg_part net * 10000 ≤ pos_part net * 10000 + neg_part e * suc b)
    above = elim (clamp_low k) [
      | inl h ↦ inl h
      | inr h ↦ inr (omega (arith, f.0, times_10000 net, scale_le e k (suc b) h))
    ]

    below :
        (e ≡ i32_max)
        ⊎ (pos_part net * 10000 + neg_part e * suc b
            < pos_part e * suc b + neg_part net * 10000 + suc b)
    below = elim (clamp_high k) [
      | inl h ↦ inl h
      | inr h ↦ inr (omega (arith, f.1, times_10000 net, scale_le k e (suc b) h))
    ]
