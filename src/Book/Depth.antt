-- ===== src/Book/Depth.antt =====
-- The best level as the first of the levels that a ladder's iterator yields.
use polybot.Common.{
  ℕ, zero, suc, ◌-◌, ◌≤◌, ◌<◌, ◌≡◌, ap, ◌∙◌, Option, none, some, List, [], ◌∷◌, arith, lt→ltb,
}
use polybot.Num.{Px, Qty, levels}
use polybot.Book.{Ladder, qty_at}
use polybot.Book.Ranks.{rank}
use polybot.Book.Best.{IsValid, IsBest}
use polybot.Book.Steps.{
  tick_at, depth_below, depth, tick_at-IsInterior, depth_below-zero, depth_below_take,
}
use polybot.Book.Iter.{depth_below-empty, rank-tick_at, rank_bounds, tick_at-rank}

-- The best level is the first of the list, and is not empty.
abbrev pub StartsAt : Ladder → Option Px → List (Px × Qty) → Type 0
StartsAt l none xs = xs ≡ []
StartsAt l (some b) xs = (rest : List (Px × Qty)) × (xs ≡ (b, qty_at l b) ∷ rest) × (0 < qty_at l b)

depth_at_rank :
    (l : Ladder) (b r : ℕ)
    → tick_at l.side (levels l.ts) r ≡ b
    → 1 ≤ r
    → 0 < qty_at l b
    → (rest : List (Px × Qty)) × (depth_below l r ≡ (b, qty_at l b) ∷ rest)
depth_at_rank l b zero e h q = absurd (omega arith)
depth_at_rank l b (suc r) e h q = (
  depth_below l r,
  depth_below_take l r (lt→ltb 0 _ (omega (arith, ap (qty_at l) e)))
      ∙ ap (λ t. (t, qty_at l t) ∷ depth_below l r) e,
)

depth_starts :
    (l : Ladder) (o : Option Px) → IsBest l.side (levels l.ts) l.lvls o → StartsAt l o (depth l)
depth_starts l none f =
    depth_below-empty l (levels l.ts - 1) zero empty (omega arith) ∙ depth_below-zero l
  where
    empty :
        (k : ℕ) → 0 ≤ k → k < levels l.ts - 1 → qty_at l (tick_at l.side (levels l.ts) (suc k)) ≡ 0
    empty k low high =
        let inside = tick_at-IsInterior l k (omega arith) in
        f _ inside.0 inside.1 (omega (arith, tick_at-rank l.side (levels l.ts) k (omega arith)))
depth_starts l (some b) (one, lt, r, q, f) =
    let bounds = rank_bounds l.side (levels l.ts) b one lt in
    let top =
      depth_at_rank l b (rank l b) (rank-tick_at l.side (levels l.ts) b one lt) bounds.0 q in
    (top.0, depth_below-empty l (levels l.ts - 1) (rank l b) empty bounds.1 ∙ top.1, q)
  where
    empty :
        (k : ℕ)
        → rank l b ≤ k
        → k < levels l.ts - 1
        → qty_at l (tick_at l.side (levels l.ts) (suc k)) ≡ 0
    empty k low high =
        let inside = tick_at-IsInterior l k (omega arith) in
        let e = tick_at-rank l.side (levels l.ts) k (omega arith) in
        f _ inside.0 inside.1 (omega (arith, e)) (omega (arith, e))

pub depth-StartsAt : (l : Ladder) → IsValid l → StartsAt l l.best (depth l)
depth-StartsAt l v = depth_starts l l.best v.best_ok
