-- ===== src/Engine/Walker/Loop.antt =====
-- The rounds of the sizing loop, taken together.
use polybot.Common.{
  ℕ, zero, suc, ◌≤◌, ◌<◌, ◌≡◌, refl, ◌≢◌, sym, subst, ◌∙◌, true, none, some, List, [], ◌∷◌, arith,
  inl, inr, Option-cases, eq_of_some,
}
use polybot.Common.Int.{pos, ◌≤ℤ◌}
use polybot.Num.{Usdc}
use polybot.Engine.Walker.{
  round_start, BasketSpec, Cursor, WalkState, probe_all, round_chunk, take_all, take_chunk,
  state_round, walk_loop, rounds,
}
use polybot.Engine.Walker.Rounds.{
  Ready, Ready-le, probe_all-Ready, round_chunk-Taken, take_from-sums,
}

pub walk_loop_stop :
    (fuel : ℕ) (spec : BasketSpec) (max_basis : Usdc) (s : WalkState)
    → round_chunk max_basis s.basis_used (state_round spec s) ≡ none
    → walk_loop (suc fuel) spec max_basis s ≡ some s
unfolding walk_loop
walk_loop_stop fuel spec max_basis s e = rw (e, walk_loop)

pub walk_loop_empty :
    (spec : BasketSpec) (max_basis : Usdc) (s : WalkState) → walk_loop zero spec max_basis s ≡ none
unfolding walk_loop
walk_loop_empty spec max_basis s = refl

-- The state after a round.
abbrev pub after_round : BasketSpec → WalkState → ℕ → WalkState
after_round spec s k = take_chunk s (state_round spec s).basis_per_share_scaled k

pub walk_loop_more :
    (fuel : ℕ) (spec : BasketSpec) (max_basis : Usdc) (s : WalkState) (k : ℕ)
    → round_chunk max_basis s.basis_used (state_round spec s) ≡ some k
    → walk_loop (suc fuel) spec max_basis s ≡ walk_loop fuel spec max_basis (after_round spec s k)
unfolding walk_loop
walk_loop_more fuel spec max_basis s k e = rw (e, walk_loop)

-- A round with a chunk: what it takes is at hand on every leg, of which there is one at least.
pub record Steps (spec : BasketSpec) (max_basis : Usdc) (s : WalkState) (k : ℕ) : Type 0 where
  pub positive : 0 < k
  pub ready : Ready k s.cursors
  pub has_legs : s.cursors ≢ []
  pub gains : ¬ ((state_round spec s).marginal ≤ℤ pos 0)

state_round-legs :
    (spec : BasketSpec) (cs : List Cursor)
    → (probe_all (round_start spec) cs).constrained ≡ true
    → cs ≢ []
unfolding probe_all round_start
state_round-legs spec [] h = cc
state_round-legs spec (c ∷ cs) h = λ e. cc

pub round_chunk-Steps :
    (spec : BasketSpec) (max_basis : Usdc) (s : WalkState) (k : ℕ)
    → round_chunk max_basis s.basis_used (state_round spec s) ≡ some k
    → Steps spec max_basis s k
round_chunk-Steps spec max_basis s k e =
    let t = round_chunk-Taken max_basis s.basis_used (state_round spec s) k e in
    record {
      positive = t.some_taken;
      ready =
          Ready-le k (state_round spec s).chunk s.cursors t.within
            (probe_all-Ready (round_start spec) s.cursors t.open_legs);
      has_legs = state_round-legs spec s.cursors t.some_leg;
      gains = t.profitable;
    }

rounds_fall :
    (cs : List Cursor) (k : ℕ) → 0 < k → Ready k cs → cs ≢ [] → rounds (take_all cs k) < rounds cs
unfolding take_all
rounds_fall [] k h r ne = absurd (ne refl)
rounds_fall (c ∷ cs) k h r ne = omega (arith, (take_from-sums c c.cur k r.0).0)

-- With as many rounds as `rounds` counts the loop ends.
pub walk_loop_total :
    (fuel : ℕ) (spec : BasketSpec) (max_basis : Usdc) (s : WalkState)
    → rounds s.cursors ≤ fuel
    → (s' : WalkState) × (walk_loop fuel spec max_basis s ≡ some s')
unfolding take_chunk
walk_loop_total zero spec max_basis s h = absurd (no_rounds s.cursors h)
  where
    no_rounds : (cs : List Cursor) → ¬ (rounds cs ≤ 0)
    no_rounds [] h = omega arith
    no_rounds (c ∷ cs) h = omega arith
walk_loop_total (suc fuel) spec max_basis s h =
    elim (Option-cases (round_chunk max_basis s.basis_used (state_round spec s))) [
      | inl e ↦ (s, walk_loop_stop fuel spec max_basis s e)
      | inr (k, e) ↦
          let st = round_chunk-Steps spec max_basis s k e in
          let fall = rounds_fall s.cursors k st.positive st.ready st.has_legs in
          let (s', e') = walk_loop_total fuel spec max_basis (after_round spec s k) (omega arith) in
          (s', walk_loop_more fuel spec max_basis s k e ∙ e')
    ]

-- The invariant rule of the loop.
pub walk_loop_inv {ℓ} :
    (P : WalkState → Type ℓ) (spec : BasketSpec) (max_basis : Usdc)
    → ((s : WalkState) (k : ℕ)
        → round_chunk max_basis s.basis_used (state_round spec s) ≡ some k
        → P s
        → P (after_round spec s k))
    → (fuel : ℕ) (s s' : WalkState) → P s
    → walk_loop fuel spec max_basis s ≡ some s'
    → P s'
walk_loop_inv P spec max_basis keep zero s s' p e = cc (walk_loop_empty spec max_basis s)
walk_loop_inv P spec max_basis keep (suc fuel) s s' p e =
    elim (Option-cases (round_chunk max_basis s.basis_used (state_round spec s))) [
      | inl f ↦ subst P (eq_of_some (sym (walk_loop_stop fuel spec max_basis s f) ∙ e)) p
      | inr (k, f) ↦
          walk_loop_inv P spec max_basis keep fuel (after_round spec s k) s' (keep s k f p)
            (sym (walk_loop_more fuel spec max_basis s k f) ∙ e)
    ]
