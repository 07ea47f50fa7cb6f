-- ===== src/Book/Iter.antt =====
-- What the iterator of `Ladder` yields.
use polybot.Common.{
  ℕ, zero, suc, ◌-◌, ◌≤◌, ◌<◌, ◌≡◌, refl, sym, ap, ◌∙◌, Option, none, some, List, [], ◌∷◌, arith,
  inl, inr, le→ltb,
}
use native.Mathlib.Decide.{ℕ_discrete}
use polybot.Num.{TickSize, Px, Qty, levels}
use polybot.Book.{
  Side, Ladder, LadderIter, qty_at, is_ask, iter_from_best, next_loop, iter_next, collect,
}
use polybot.Book.Ranks.{rank_of, rank}
use polybot.Book.Best.{IsValid, IsBest}
use polybot.Book.Steps.{
  tick_at, depth_below, depth, cursor, tick_at-IsInterior, depth_below_skip, depth_below-zero,
  next_loop-Next,
}

abbrev iter_at : Ladder → ℕ → LadderIter
iter_at l r = record { cur = cursor l.side (levels l.ts) r; ascending = is_ask l.side }

-- `next` at a cursor of rank `r`, once the loop is known.
iter_next_lem :
    (l : Ladder) (r : ℕ) (item : Option (Px × Qty)) (c : Option ℕ)
    → next_loop (levels l.ts) l (is_ask l.side) (tick_at l.side (levels l.ts) (suc r))
      ≡ some (item, c)
    → iter_next l (iter_at l (suc r)) ≡ some (item, record { cur = c; ascending = is_ask l.side })
unfolding iter_next
iter_next_lem l r item c e = rw (e, iter_next)

collect_end :
    (l : Ladder) (fuel : ℕ) (it it' : LadderIter)
    → iter_next l it ≡ some (none, it')
    → collect (suc fuel) l it ≡ some []
unfolding collect
collect_end l fuel it it' e = rw (e, collect)

collect_more :
    (l : Ladder) (fuel : ℕ) (it it' : LadderIter) (x : Px × Qty) (xs : List (Px × Qty))
    → iter_next l it ≡ some (some x, it')
    → collect fuel l it' ≡ some xs
    → collect (suc fuel) l it ≡ some (x ∷ xs)
unfolding collect
collect_more l fuel it it' x xs e f = rw (e, collect) (rw (f, collect))

iter_next_stop : (l : Ladder) → iter_next l (iter_at l zero) ≡ some (none, iter_at l zero)
unfolding iter_next
iter_next_stop l = refl

-- From a cursor of rank `r` the iterator yields the levels of rank at most `r`.
collect-depth_below :
    (l : Ladder) (fuel r : ℕ)
    → r < fuel
    → r < levels l.ts
    → collect fuel l (iter_at l r) ≡ some (depth_below l r)
collect-depth_below l zero r h k = absurd (omega arith)
collect-depth_below l (suc fuel) zero h k =
    collect_end l fuel (iter_at l zero) (iter_at l zero) (iter_next_stop l)
    ∙ ap some (sym (depth_below-zero l))
collect-depth_below l (suc fuel) (suc r) h k =
    elim (next_loop-Next l (levels l.ts) r (omega arith) k) [
      | inl (d, e) ↦
          collect_end l fuel (iter_at l (suc r)) _ (iter_next_lem l r none none e) ∙ ap some (sym d)
      | inr (it, r', lt, d, e) ↦
          collect_more l fuel (iter_at l (suc r)) (iter_at l r') it (depth_below l r')
            (iter_next_lem l r (some it) (cursor l.side (levels l.ts) r') e)
            (collect-depth_below l fuel r' (omega arith) (omega arith))
          ∙ ap some (sym d)
    ]

-- Ranks above which nothing rests can be left out.
pub depth_below-empty :
    (l : Ladder) (n r : ℕ)
    → ((k : ℕ) → r ≤ k → k < n → qty_at l (tick_at l.side (levels l.ts) (suc k)) ≡ 0)
    → r ≤ n
    → depth_below l n ≡ depth_below l r
depth_below-empty l zero r f h = ap (depth_below l) (omega arith)
depth_below-empty l (suc n) r f h = elim (ℕ_discrete r (suc n)) [
  | yes e ↦ ap (depth_below l) (sym e)
  | no e ↦
      depth_below_skip l n (le→ltb 0 _ (omega (arith, f n (omega arith) (omega arith))))
      ∙ depth_below-empty l n r (λ k low high. f k low (omega arith)) (omega arith)
]

pub tick_at-rank :
    (s : Side) (top r : ℕ) → suc r < top → rank_of s top (tick_at s top (suc r)) ≡ suc r
tick_at-rank Side.bid top r h = omega arith
tick_at-rank Side.ask top r h = omega arith

pub rank-tick_at : (s : Side) (top t : ℕ) → 1 ≤ t → t < top → tick_at s top (rank_of s top t) ≡ t
rank-tick_at Side.bid top t one h = omega arith
rank-tick_at Side.ask top t one h = omega arith

cursor_pos : (s : Side) (top r : ℕ) → 1 ≤ r → cursor s top r ≡ some (tick_at s top r)
cursor_pos s top zero h = absurd (omega arith)
cursor_pos s top (suc r) h = refl

pub rank_bounds :
    (s : Side) (top t : ℕ) → 1 ≤ t → t < top → (1 ≤ rank_of s top t) × (rank_of s top t ≤ top - 1)
rank_bounds Side.bid top t one h = omega arith
rank_bounds Side.ask top t one h = omega arith

levels_pos : (ts : TickSize) → 2 ≤ levels ts
unfolding levels
levels_pos TickSize.cent = omega arith
levels_pos TickSize.milli = omega arith

-- The iterator of a ladder whose best level is `o`.
abbrev iter_of : Ladder → Option Px → LadderIter
iter_of l o = record { cur = o; ascending = is_ask l.side }

collect_best :
    (l : Ladder) (o : Option Px)
    → IsBest l.side (levels l.ts) l.lvls o
    → collect (levels l.ts) l (iter_of l o) ≡ some (depth l)
collect_best l none f =
    collect-depth_below l (levels l.ts) zero (omega (arith, levels_pos l.ts))
      (omega (arith, levels_pos l.ts))
    ∙ ap some (sym (depth_below-empty l (levels l.ts - 1) zero empty (omega arith)))
  where
    empty :
        (k : ℕ) → 0 ≤ k → k < levels l.ts - 1 → qty_at l (tick_at l.side (levels l.ts) (suc k)) ≡ 0
    empty k low high =
        let inside = tick_at-IsInterior l k (omega arith) in
        f _ inside.0 inside.1 (omega (arith, tick_at-rank l.side (levels l.ts) k (omega arith)))
collect_best l (some b) (one, lt, r, q, f) =
    ap (λ c. collect (levels l.ts) l (iter_of l c))
      (sym (
        cursor_pos l.side (levels l.ts) (rank l b) bounds.0
        ∙ ap some (rank-tick_at l.side (levels l.ts) b one lt)))
    ∙ collect-depth_below l (levels l.ts) (rank l b) (omega (arith, levels_pos l.ts, bounds))
        (omega (arith, levels_pos l.ts, bounds))
    ∙ ap some (sym (depth_below-empty l (levels l.ts - 1) (rank l b) empty bounds.1))
  where
    bounds : (1 ≤ rank l b) × (rank l b ≤ levels l.ts - 1)
    bounds = rank_bounds l.side (levels l.ts) b one lt

    empty :
        (k : ℕ)
        → rank l b ≤ k
        → k < levels l.ts - 1
        → qty_at l (tick_at l.side (levels l.ts) (suc k)) ≡ 0
    empty k low high =
        let inside = tick_at-IsInterior l k (omega arith) in
        let e = tick_at-rank l.side (levels l.ts) k (omega arith) in
        f _ inside.0 inside.1 (omega (arith, e)) (omega (arith, e))

-- On a valid ladder the iterator yields every non-empty level, best price first, and nothing else,
-- and as many calls of `next` as there are levels are enough.
pub collect-depth :
    (l : Ladder) → IsValid l → collect (levels l.ts) l (iter_from_best l) ≡ some (depth l)
unfolding iter_from_best
collect-depth l v = collect_best l l.best v.best_ok
