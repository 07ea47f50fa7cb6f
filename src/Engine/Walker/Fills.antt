-- ===== src/Engine/Walker/Fills.antt =====
-- What the rounds fill on each leg.
use polybot.Common.{
  ℕ, ◌+◌, ◌-◌, ◌≡◌, refl, sym, ap, ap₂, ◌∙◌, Option, none, some, List, [], ◌∷◌, map, arith, ◌⊎◌,
  inl, inr, Bool-cases, ◌==◌, if◌then◌else◌,
}
use polybot.Common.Int.{pos, ◌≤ℤ◌}
use polybot.Num.{Px, Qty, Usdc}
use polybot.Engine.Walker.{
  LegSpec, BasketSpec, Cursor, WalkState, next_level, ladder_levels, open_cursor, push_seg,
  take_from, take_all, take_chunk, state_round, round_chunk, walk_loop, start, level_sum,
}
use polybot.Engine.Walker.Loop.{after_round, round_chunk-Steps, walk_loop_inv}
use polybot.Engine.Walker.Rounds.{
  Has, Ready, take_from-sums, next_level-segs, next_level-leg, round_chunk-charge,
}

-- What a list of levels holds at price `p`.
abbrev pub at_price : Px → List (Px × ℕ) → ℕ
at_price p [] = 0
at_price p ((p', q) ∷ xs) = (if p' == p then q else 0) + at_price p xs

abbrev cur_at : Px → Option (Px × ℕ) → ℕ
cur_at p none = 0
cur_at p (some (p', q)) = if p' == p then q else 0

abbrev cursor_at : Px → Cursor → ℕ
cursor_at p c = at_price p c.segs + cur_at p c.cur + at_price p c.rest

push_seg-at_price :
    (ss : List (Px × ℕ)) (p x q : ℕ)
    → at_price p (push_seg ss x q) ≡ at_price p ss + cur_at p (some (x, q))
unfolding push_seg
push_seg-at_price [] p x q = omega arith
push_seg-at_price ((p', q') ∷ []) p x q = ground arith
push_seg-at_price (s ∷ t ∷ ss) p x q = omega (arith, push_seg-at_price (t ∷ ss) p x q)

next_level-at :
    (c : Cursor) (p : Px) (xs : List (Px × Qty))
    → cursor_at p (next_level c xs) ≡ at_price p c.segs + at_price p xs
unfolding next_level
next_level-at c p [] = omega arith
next_level-at c p (x ∷ xs) = omega arith

-- A chunk moves quantity within its price.
take_from-at :
    (c : Cursor) (o : Option (Px × ℕ)) (k : ℕ) (p : Px)
    → Has k o
    → cursor_at p (take_from c o k) ≡ at_price p c.segs + cur_at p o + at_price p c.rest
unfolding take_from
take_from-at c none k p h = absurd h
take_from-at c (some (x, rem)) k p h = elim (Bool-cases ((rem - k) == 0)) [
  | inl e ↦ rw e (next_level-at filled p c.rest ∙ ground (arith, push_seg-at_price c.segs p x k))
  | inr e ↦ rw e (ground (arith, push_seg-at_price c.segs p x k))
]
  where
    filled : Cursor
    filled = record c { segs = push_seg c.segs x k }

-- A leg has filled `u`, and what it filled and has left is what its ladder offers at each price.
pub record LegOk (u : ℕ) (c : Cursor) : Type 0 where
  pub filled : level_sum c.segs ≡ u
  pub conserved : (p : Px) → cursor_at p c ≡ at_price p (ladder_levels c.leg.ladder)

abbrev pub LegsOk : ℕ → List Cursor → Type 0
LegsOk u [] = Unit {0}
LegsOk u (c ∷ cs) = LegOk u c × LegsOk u cs

take_from-LegOk :
    (c : Cursor) (u k : ℕ) → Has k c.cur → LegOk u c → LegOk (u + k) (take_from c c.cur k)
take_from-LegOk c u k h v =
    let sums = take_from-sums c c.cur k h in
    record {
      filled = omega (arith, sums.1, v.filled);
      conserved = λ p.
          take_from-at c c.cur k p h
          ∙ v.conserved p
          ∙ ap (λ (l : LegSpec). at_price p (ladder_levels l.ladder)) (sym sums.2);
    }

take_all-LegsOk :
    (cs : List Cursor) (u k : ℕ) → Ready k cs → LegsOk u cs → LegsOk (u + k) (take_all cs k)
unfolding take_all
take_all-LegsOk [] u k r v = tt
take_all-LegsOk (c ∷ cs) u k r v = (take_from-LegOk c u k r.0 v.0, take_all-LegsOk cs u k r.1 v.1)

abbrev pub legs_of : List Cursor → List LegSpec
legs_of [] = []
legs_of (c ∷ cs) = c.leg ∷ legs_of cs

legs_of-take_all : (cs : List Cursor) (k : ℕ) → Ready k cs → legs_of (take_all cs k) ≡ legs_of cs
unfolding take_all
legs_of-take_all [] k r = refl
legs_of-take_all (c ∷ cs) k r = ap₂ ◌∷◌ (take_from-sums c c.cur k r.0).2 (legs_of-take_all cs k r.1)

-- The invariant of the loop.
pub record WalkInv (spec : BasketSpec) (max_basis : Usdc) (s : WalkState) : Type 0 where
  pub legs_ok : LegsOk s.units s.cursors
  pub legs : legs_of s.cursors ≡ spec.legs
  pub capped : (s.basis_used ≡ 0) ⊎ (pos s.basis_used ≤ℤ max_basis)

open_cursor-LegOk : (leg : LegSpec) → LegOk 0 (open_cursor leg) × ((open_cursor leg).leg ≡ leg)
unfolding open_cursor
open_cursor-LegOk leg = (
  record {
    filled = ap level_sum (next_level-segs fresh offered);
    conserved = λ p.
        next_level-at fresh p offered
        ∙ (let z : 0 + at_price p offered ≡ at_price p offered = omega arith in z)
        ∙ ap (λ (l : LegSpec). at_price p (ladder_levels l.ladder))
            (sym (next_level-leg fresh offered));
  },
  next_level-leg fresh offered,
)
  where
    fresh : Cursor
    fresh = record { leg = leg; rest = []; cur = none; segs = [] }

    offered : List (Px × Qty)
    offered = ladder_levels leg.ladder

start-LegsOk :
    (legs : List LegSpec)
    → LegsOk 0 (map open_cursor legs) × (legs_of (map open_cursor legs) ≡ legs)
start-LegsOk [] = (tt, refl)
start-LegsOk (leg ∷ legs) =
    let one = open_cursor-LegOk leg in
    let rest = start-LegsOk legs in ((one.0, rest.0), ap₂ ◌∷◌ one.1 rest.1)

pub start-WalkInv : (spec : BasketSpec) (max_basis : Usdc) → WalkInv spec max_basis (start spec)
unfolding start
start-WalkInv spec max_basis =
    let legs = start-LegsOk spec.legs in
    record { legs_ok = legs.0; legs = legs.1; capped = inl refl }

round-capped :
    (used charged : ℕ) (max_basis : Usdc)
    → (used ≡ 0) ⊎ (pos used ≤ℤ max_basis)
    → (charged ≡ 0) ⊎ (pos (used + charged) ≤ℤ max_basis)
    → (used + charged ≡ 0) ⊎ (pos (used + charged) ≤ℤ max_basis)
round-capped used charged max_basis (inl h) (inl k) = inl (omega arith)
round-capped used charged max_basis (inr h) (inl k) = inr (omega arith)
round-capped used charged max_basis h (inr k) = inr k

pub after_round-WalkInv :
    (spec : BasketSpec) (max_basis : Usdc) (s : WalkState) (k : ℕ)
    → round_chunk max_basis s.basis_used (state_round spec s) ≡ some k
    → WalkInv spec max_basis s
    → WalkInv spec max_basis (after_round spec s k)
unfolding take_chunk
after_round-WalkInv spec max_basis s k e v =
    let st = round_chunk-Steps spec max_basis s k e in
    record {
      legs_ok = take_all-LegsOk s.cursors s.units k st.ready v.legs_ok;
      legs = legs_of-take_all s.cursors k st.ready ∙ v.legs;
      capped =
          round-capped s.basis_used _ max_basis v.capped
            (round_chunk-charge max_basis s.basis_used (state_round spec s) k e);
    }

-- The invariant holds where the loop ends.
pub walk_loop-WalkInv :
    (spec : BasketSpec) (max_basis : Usdc) (fuel : ℕ) (s : WalkState)
    → walk_loop fuel spec max_basis (start spec) ≡ some s
    → WalkInv spec max_basis s
walk_loop-WalkInv spec max_basis fuel s e =
    walk_loop_inv (WalkInv spec max_basis) spec max_basis (after_round-WalkInv spec max_basis) fuel
      (start spec) s (start-WalkInv spec max_basis) e
