-- ===== src/Engine/Walker/Rounds.antt =====
-- One round of the sizing loop: the chunk that it takes, its charge, and the cursors behind it.
use native.Mathlib.Nat.{div-mul-le_self, mul-le-mul_right, le_trans}
use polybot.Common.{
  ℕ, ◌+◌, ◌-◌, ◌*◌, ◌/◌, ◌≤◌, ◌<◌, ◌≡◌, refl, sym, ap, subst, ◌∙◌, true, false, Option, none, some,
  List, [], ◌∷◌, arith, ◌⊎◌, inl, inr, Bool-cases, ltb, ==_iff, ltb→lt, ltb→le, ◌==◌,
}
use polybot.Common.Int.{ℤ, pos, pos_part, ◌-ℤ◌, ◌≤ℤ◌, min_ℤ, int_laws}
use polybot.Num.{Px, Usdc}
use polybot.Engine.Walker.{
  LegSpec, Cursor, Round, next_level, probe, probe_all, basis_cap, capped_chunk, round_chunk,
  push_seg, take_from, level_sum, cur_sum, left_on,
}

-- A level with `k` micro-shares at least.
abbrev pub Has : ℕ → Option (Px × ℕ) → Type 0
Has k none = ⊥
Has k (some (p, rem)) = k ≤ rem

abbrev pub Ready : ℕ → List Cursor → Type 0
Ready k [] = Unit {0}
Ready k (c ∷ cs) = Has k c.cur × Ready k cs

probe_exhausted :
    (r : Round) (cs : List Cursor) → (probe_all r cs).exhausted ≡ false → r.exhausted ≡ false
unfolding probe_all probe
probe_exhausted r [] h = h
probe_exhausted r (c ∷ cs) h = ground (arith, probe_exhausted (probe r c.leg c.cur) cs h)

probe_chunk : (r : Round) (cs : List Cursor) → (probe_all r cs).chunk ≤ r.chunk
unfolding probe_all probe
probe_chunk r [] = omega arith
probe_chunk r (c ∷ cs) = ground (arith, probe_chunk (probe r c.leg c.cur) cs)

Has-le : (j k : ℕ) (o : Option (Px × ℕ)) → j ≤ k → Has k o → Has j o
Has-le j k none h x = x
Has-le j k (some (p, rem)) h x = omega arith

pub Ready-le : (j k : ℕ) (cs : List Cursor) → j ≤ k → Ready k cs → Ready j cs
Ready-le j k [] h x = tt
Ready-le j k (c ∷ cs) h x = (Has-le j k c.cur h x.0, Ready-le j k cs h x.1)

probe-Has :
    (r : Round) (leg : LegSpec) (o : Option (Px × ℕ))
    → (probe r leg o).exhausted ≡ false
    → Has (probe r leg o).chunk o
unfolding probe
probe-Has r leg none h = cc
probe-Has r leg (some (p, rem)) h = omega arith

-- Unless a leg is exhausted, the chunk is at hand on every leg.
pub probe_all-Ready :
    (r : Round) (cs : List Cursor)
    → (probe_all r cs).exhausted ≡ false
    → Ready (probe_all r cs).chunk cs
unfolding probe_all
probe_all-Ready r [] h = tt
probe_all-Ready r (c ∷ cs) h =
    let r' = probe r c.leg c.cur in
    (
      Has-le (probe_all r' cs).chunk r'.chunk c.cur (probe_chunk r' cs)
          (probe-Has r c.leg c.cur (probe_exhausted r' cs h)),
      probe_all-Ready r' cs h,
    )

-- What is known of a chunk that is taken.
pub record Taken (max_basis : Usdc) (basis_used : ℕ) (r : Round) (k : ℕ) : Type 0 where
  pub open_legs : r.exhausted ≡ false
  pub some_taken : 0 < k
  pub some_leg : r.constrained ≡ true
  pub within : k ≤ r.chunk
  pub profitable : ¬ (r.marginal ≤ℤ pos 0)

pub round_chunk-Taken :
    (max_basis : Usdc) (basis_used : ℕ) (r : Round) (k : ℕ)
    → round_chunk max_basis basis_used r ≡ some k
    → Taken max_basis basis_used r k
unfolding round_chunk capped_chunk
round_chunk-Taken max_basis basis_used r k h = record {
  open_legs = ground arith;
  some_taken = ground arith;
  some_leg = ground arith;
  within = ground arith;
  profitable = ground arith;
}

-- µUSDC charged to the basis for a chunk.
abbrev charge : ℕ → ℕ → ℕ
charge basis k = (basis * k + 10000000000 - 1) / 10000000000

cap-charge : (r k basis : ℕ) → 0 < basis → k ≤ r * 10000000000 / basis → charge basis k ≤ r
cap-charge r k basis pos_basis h =
    let low : k * basis ≤ r * 10000000000 / basis * basis = mul-le-mul_right basis h in
    let high : r * 10000000000 / basis * basis ≤ r * 10000000000 =
      div-mul-le_self (r * 10000000000) basis in
    omega arith

free_charge : (k : ℕ) → charge 0 k ≡ 0
free_charge k = omega arith

-- The rest of the basis that a round sees, as a number.
abbrev rest_of : ℤ → ℕ
rest_of remaining = pos_part (min_ℤ remaining (pos 1000000000000000000))

rest-le : (remaining : ℤ) → pos 1 ≤ℤ remaining → pos (rest_of remaining) ≤ℤ remaining
rest-le remaining h = ground arith

basis_cap-le :
    (remaining : ℤ) (basis : ℕ)
    → basis_cap remaining basis ≤ rest_of remaining * 10000000000 / basis
unfolding basis_cap
basis_cap-le remaining basis = omega arith

capped_chunk-le :
    (max_basis : Usdc) (basis_used : ℕ) (r : Round) (k : ℕ)
    → ltb 0 r.basis_per_share_scaled ≡ true
    → round_chunk max_basis basis_used r ≡ some k
    → (pos 1 ≤ℤ max_basis -ℤ pos basis_used)
      × (k ≤ basis_cap (max_basis -ℤ pos basis_used) r.basis_per_share_scaled)
unfolding round_chunk capped_chunk
capped_chunk-le max_basis basis_used r k e h = (ground arith, ground arith)

no_basis : (b : ℕ) → ltb 0 b ≡ false → b ≡ 0
no_basis b e = omega (arith, ltb→le _ _ e)

-- A chunk that is taken keeps the charged basis within the cap, or is free.
pub round_chunk-charge :
    (max_basis : Usdc) (basis_used : ℕ) (r : Round) (k : ℕ)
    → round_chunk max_basis basis_used r ≡ some k
    → (charge r.basis_per_share_scaled k ≡ 0)
      ⊎ (pos (basis_used + charge r.basis_per_share_scaled k) ≤ℤ max_basis)
round_chunk-charge max_basis basis_used r k h = elim (Bool-cases (ltb 0 r.basis_per_share_scaled)) [
  | inl e ↦
      let (open_rest, capped) = capped_chunk-le max_basis basis_used r k e h in
      let remaining = max_basis -ℤ pos basis_used in
      let fits : charge r.basis_per_share_scaled k ≤ rest_of remaining =
        cap-charge (rest_of remaining) k r.basis_per_share_scaled (ltb→lt _ _ e)
          (le_trans capped (basis_cap-le remaining r.basis_per_share_scaled)) in
      inr (omega (int_laws, fits, rest-le remaining open_rest))
  | inr e ↦
      inl (subst (λ b. charge b k ≡ 0) (sym (no_basis r.basis_per_share_scaled e)) (free_charge k))
]

-- The cursor after a chunk: what is left, and what is filled.
push_seg-sum : (ss : List (Px × ℕ)) (p q : ℕ) → level_sum (push_seg ss p q) ≡ level_sum ss + q
unfolding push_seg
push_seg-sum [] p q = omega arith
push_seg-sum ((p', q') ∷ []) p q = ground arith
push_seg-sum (s ∷ t ∷ ss) p q = omega (arith, push_seg-sum (t ∷ ss) p q)

next_level-left : (c : Cursor) (xs : List (Px × ℕ)) → left_on (next_level c xs) ≡ level_sum xs
unfolding next_level
next_level-left c [] = omega arith
next_level-left c (x ∷ xs) = omega arith

pub next_level-segs : (c : Cursor) (xs : List (Px × ℕ)) → (next_level c xs).segs ≡ c.segs
unfolding next_level
next_level-segs c [] = refl
next_level-segs c (x ∷ xs) = refl

pub next_level-leg : (c : Cursor) (xs : List (Px × ℕ)) → (next_level c xs).leg ≡ c.leg
unfolding next_level
next_level-leg c [] = refl
next_level-leg c (x ∷ xs) = refl

-- A chunk moves from what is left to what is filled.
pub take_from-sums :
    (c : Cursor) (o : Option (Px × ℕ)) (k : ℕ)
    → Has k o
    → (left_on (take_from c o k) + k ≡ cur_sum o + level_sum c.rest)
      × (level_sum (take_from c o k).segs ≡ level_sum c.segs + k)
      × ((take_from c o k).leg ≡ c.leg)
unfolding take_from
take_from-sums c none k h = absurd h
take_from-sums c (some (p, rem)) k h = elim (Bool-cases ((rem - k) == 0)) [
  | inl e ↦ rw e (
    omega (arith, next_level-left filled c.rest, (==_iff (rem - k) 0).0 e),
    ap level_sum (next_level-segs filled c.rest) ∙ push_seg-sum c.segs p k,
    next_level-leg filled c.rest,
  )
  | inr e ↦ rw e (omega arith, push_seg-sum c.segs p k, refl)
]
  where
    filled : Cursor
    filled = record c { segs = push_seg c.segs p k }
