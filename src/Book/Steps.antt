-- ===== src/Book/Steps.antt =====
-- One call of `LadderIter::next`, by the rank of its cursor.
use polybot.Common.{
  ℕ, zero, suc, ◌-◌, ◌<◌, ◌≡◌, refl, ap, ◌∙◌, Bool, true, false, Option, none, some, List, [], ◌∷◌,
  arith, ◌⊎◌, inl, inr, Bool-cases, ltb, if◌then◌else◌,
}
use polybot.Num.{Px, Qty, levels}
use polybot.Book.{Side, Ladder, qty_at, is_ask, item_at, advance, next_loop}
use polybot.Book.Ranks.{IsInterior, px_new-IsInterior}

-- The tick of a rank.
abbrev pub tick_at : Side → ℕ → ℕ → ℕ
tick_at Side.bid top r = r
tick_at Side.ask top r = top - r

-- The non-empty levels of rank at most `r`, best first, read off the quantities alone.
unfoldable pub depth_below : Ladder → ℕ → List (Px × Qty)
depth_below l zero = []
depth_below l (suc r) =
    let t = tick_at l.side (levels l.ts) (suc r) in
    if ltb 0 (qty_at l t) then (t, qty_at l t) ∷ depth_below l r else depth_below l r

-- All non-empty levels of the ladder, best first.
abbrev pub depth : Ladder → List (Px × Qty)
depth l = depth_below l (levels l.ts - 1)

abbrev pub cursor : Side → ℕ → ℕ → Option ℕ
cursor s top zero = none
cursor s top (suc r) = some (tick_at s top (suc r))

advance_lem :
    (l : Ladder) (r : ℕ)
    → suc r < levels l.ts
    → advance l (is_ask l.side) (tick_at l.side (levels l.ts) (suc r))
      ≡ cursor l.side (levels l.ts) r
unfolding advance
advance_lem l r h = go l.side r h
  where
    go :
        (s : Side) (r : ℕ)
        → suc r < levels l.ts
        → advance l (is_ask s) (tick_at s (levels l.ts) (suc r)) ≡ cursor s (levels l.ts) r
    go Side.bid zero h = ground arith
    go Side.bid (suc r) h = ground arith
    go Side.ask zero h = ground arith
    go Side.ask (suc r) h = ground arith

pub tick_at-IsInterior :
    (l : Ladder) (r : ℕ)
    → suc r < levels l.ts
    → IsInterior l.ts (tick_at l.side (levels l.ts) (suc r))
tick_at-IsInterior l r h = go l.side
  where
    go : (s : Side) → IsInterior l.ts (tick_at s (levels l.ts) (suc r))
    go Side.bid = omega arith
    go Side.ask = omega arith

item_at-some :
    (l : Ladder) (t : ℕ)
    → IsInterior l.ts t
    → ltb 0 (qty_at l t) ≡ true
    → item_at l t ≡ some (t, qty_at l t)
unfolding item_at
item_at-some l t h e = rw (e, px_new-IsInterior l.ts t h)

item_at-none : (l : Ladder) (t : ℕ) → ltb 0 (qty_at l t) ≡ false → item_at l t ≡ none
unfolding item_at
item_at-none l t e = rw e

-- What one call of the loop of `next` does at rank `r`.
abbrev Next : Ladder → ℕ → Option (Option (Px × Qty) × Option ℕ) → Type 0
Next l r res =
    ((depth_below l r ≡ []) × (res ≡ some (none, none)))
    ⊎ ((it : Px × Qty) × (r' : ℕ) × (r' < r)
        × (depth_below l r ≡ it ∷ depth_below l r')
        × (res ≡ some (some it, cursor l.side (levels l.ts) r')))

pub depth_below_skip :
    (l : Ladder) (r : ℕ)
    → ltb 0 (qty_at l (tick_at l.side (levels l.ts) (suc r))) ≡ false
    → depth_below l (suc r) ≡ depth_below l r
unfolding depth_below
depth_below_skip l r e = rw e

pub depth_below_take :
    (l : Ladder) (r : ℕ)
    → let t = tick_at l.side (levels l.ts) (suc r) in
      ltb 0 (qty_at l t) ≡ true → depth_below l (suc r) ≡ (t, qty_at l t) ∷ depth_below l r
unfolding depth_below
depth_below_take l r e = rw e

next_loop_found :
    (l : Ladder) (fuel t : ℕ) (asc : Bool) (it : Px × Qty)
    → item_at l t ≡ some it
    → next_loop (suc fuel) l asc t ≡ some (some it, advance l asc t)
unfolding next_loop
next_loop_found l fuel t asc it e = rw (e, next_loop)

next_loop_end :
    (l : Ladder) (fuel t : ℕ) (asc : Bool)
    → item_at l t ≡ none
    → advance l asc t ≡ none
    → next_loop (suc fuel) l asc t ≡ some (none, none)
unfolding next_loop
next_loop_end l fuel t asc e f = rw (e, next_loop) (rw (f, next_loop))

next_loop_skip :
    (l : Ladder) (fuel t u : ℕ) (asc : Bool)
    → item_at l t ≡ none
    → advance l asc t ≡ some u
    → next_loop (suc fuel) l asc t ≡ next_loop fuel l asc u
unfolding next_loop
next_loop_skip l fuel t u asc e f = rw (e, next_loop) (rw (f, next_loop))

Next-found :
    (l : Ladder) (fuel r : ℕ)
    → suc r < levels l.ts
    → ltb 0 (qty_at l (tick_at l.side (levels l.ts) (suc r))) ≡ true
    → Next l (suc r) (next_loop (suc fuel) l (is_ask l.side) (tick_at l.side (levels l.ts) (suc r)))
Next-found l fuel r k e = inr (
  (t, qty_at l t),
  r,
  omega arith,
  depth_below_take l r e,
  next_loop_found l fuel t (is_ask l.side) (t, qty_at l t)
        (item_at-some l t (tick_at-IsInterior l r k) e)
      ∙ ap (λ c. some (some (t, qty_at l t), c)) (advance_lem l r k),
)
  where
    t : ℕ
    t = tick_at l.side (levels l.ts) (suc r)

Next-skip :
    (l : Ladder) (r : ℕ) (res res' : Option (Option (Px × Qty) × Option ℕ))
    → depth_below l (suc r) ≡ depth_below l r
    → res' ≡ res
    → Next l r res
    → Next l (suc r) res'
Next-skip l r res res' d e (inl (f, g)) = inl (d ∙ f, e ∙ g)
Next-skip l r res res' d e (inr (it, r', h, f, g)) = inr (it, r', omega arith, d ∙ f, e ∙ g)

pub depth_below-zero : (l : Ladder) → depth_below l zero ≡ []
unfolding depth_below
depth_below-zero l = refl

pub next_loop-Next :
    (l : Ladder) (fuel r : ℕ)
    → r < fuel
    → suc r < levels l.ts
    → Next l (suc r) (next_loop fuel l (is_ask l.side) (tick_at l.side (levels l.ts) (suc r)))
next_loop-Next l zero r h k = absurd (omega arith)
next_loop-Next l (suc fuel) zero h k =
    elim (Bool-cases (ltb 0 (qty_at l (tick_at l.side (levels l.ts) 1)))) [
      | inl e ↦ Next-found l fuel zero k e
      | inr e ↦ inl (
        depth_below_skip l zero e ∙ depth_below-zero l,
        next_loop_end l fuel (tick_at l.side (levels l.ts) 1) (is_ask l.side)
            (item_at-none l (tick_at l.side (levels l.ts) 1) e) (advance_lem l zero k),
      )
    ]
next_loop-Next l (suc fuel) (suc r) h k =
    elim (Bool-cases (ltb 0 (qty_at l (tick_at l.side (levels l.ts) (suc (suc r)))))) [
      | inl e ↦ Next-found l fuel (suc r) k e
      | inr e ↦
          Next-skip l (suc r) _ _ (depth_below_skip l (suc r) e)
            (next_loop_skip l fuel (tick_at l.side (levels l.ts) (suc (suc r)))
              (tick_at l.side (levels l.ts) (suc r)) (is_ask l.side)
              (item_at-none l (tick_at l.side (levels l.ts) (suc (suc r))) e)
              (advance_lem l (suc r) k))
            (next_loop-Next l fuel r (omega arith) (omega arith))
    ]
