-- ===== src/Engine/Walker/Reached.antt =====
-- The states that the rounds of `walk` pass through.
use polybot.Common.{
  ℕ, zero, suc, ◌≡◌, sym, ◌∙◌, subst, none, some, arith, inl, inr, Option-cases, eq_of_some,
}
use polybot.Num.{Usdc}
use polybot.Engine.Walker.{
  BasketSpec, WalkState, round_chunk, state_round, walk_loop, start, rounds,
}
use polybot.Engine.Walker.Loop.{
  after_round, walk_loop_stop, walk_loop_more, walk_loop_empty, walk_loop_total,
}
use polybot.Engine.Walker.Fills.{WalkInv, start-WalkInv, after_round-WalkInv}

-- A state in which some round begins: the first, or what a round with a chunk leaves.
pub data RoundsTo (spec : BasketSpec) (max_basis : Usdc) : WalkState → Type 0 where
  here : RoundsTo spec max_basis (start spec)
  next :
      {s : WalkState} (k : ℕ)
      → RoundsTo spec max_basis s
      → round_chunk max_basis s.basis_used (state_round spec s) ≡ some k
      → RoundsTo spec max_basis (after_round spec s k)

each-WalkInv :
    (spec : BasketSpec) (max_basis : Usdc) {s : WalkState}
    → RoundsTo spec max_basis s
    → WalkInv spec max_basis s
each-WalkInv spec max_basis here = start-WalkInv spec max_basis
each-WalkInv spec max_basis (next {s = s} k r e) =
    after_round-WalkInv spec max_basis s k e (each-WalkInv spec max_basis r)

-- Where the loop ends: a state that the rounds reach, and from which no round has a chunk.
abbrev pub IsLast : BasketSpec → Usdc → WalkState → Type 0
IsLast spec max_basis s =
    RoundsTo spec max_basis s × (round_chunk max_basis s.basis_used (state_round spec s) ≡ none)

end-IsLast :
    (spec : BasketSpec) (max_basis : Usdc) (fuel : ℕ) (s s' : WalkState)
    → RoundsTo spec max_basis s
    → walk_loop fuel spec max_basis s ≡ some s'
    → IsLast spec max_basis s'
end-IsLast spec max_basis zero s s' r e = cc (walk_loop_empty spec max_basis s)
end-IsLast spec max_basis (suc fuel) s s' r e =
    elim (Option-cases (round_chunk max_basis s.basis_used (state_round spec s))) [
      | inl f ↦
          subst (IsLast spec max_basis)
            (eq_of_some (sym (walk_loop_stop fuel spec max_basis s f) ∙ e)) (r, f)
      | inr (k, f) ↦
          end-IsLast spec max_basis fuel (after_round spec s k) s' (next k r f)
            (sym (walk_loop_more fuel spec max_basis s k f) ∙ e)
    ]

-- In every state in which a round begins, every leg has filled the units of the state, each within
-- what its ladder offers at every price, and the charged basis is 0 or within the cap; and from there
-- the loop ends, with fuel for one round for each micro-share left on the first leg and one more, in
-- such a state, from which no round has a chunk.
pub RoundsTo-WalkInv :
    (spec : BasketSpec) (max_basis : Usdc) (s : WalkState)
    → RoundsTo spec max_basis s
    → WalkInv spec max_basis s
      × ((s' : WalkState) × (walk_loop (rounds s.cursors) spec max_basis s ≡ some s')
          × IsLast spec max_basis s'
          × WalkInv spec max_basis s')
RoundsTo-WalkInv spec max_basis s r =
    let (s', e) = walk_loop_total (rounds s.cursors) spec max_basis s (omega arith) in
    let last = end-IsLast spec max_basis (rounds s.cursors) s s' r e in
    (each-WalkInv spec max_basis r, (s', e, last, each-WalkInv spec max_basis last.0))
