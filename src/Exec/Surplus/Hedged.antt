-- ===== src/Exec/Surplus/Hedged.antt =====
-- What the surpluses leave of a basket.
use native.Mathlib.Nat.{mul-le-mul_right, le_of_mul-le-mul_right, div-le_of_le-mul}
use polybot.Common.{
  ℕ, suc, zero, ◌-◌, ◌*◌, ◌/◌, ◌≤◌, ◌<◌, ◌≡◌, ◌⊎◌, refl, sym, ◌∙◌, subst, true, false, none, some,
  List, [], ◌∷◌, arith, inl, inr, Bool-cases, ltb, ltb→lt, ltb→le, ◌==◌, ==_iff, if◌then◌else◌,
}
use polybot.Num.{Qty}
use polybot.Exec.Surplus.{Leg, lesser, best_leg, surplus_each, no_surplus, surpluses}

-- The first leg is filled to a fraction that is at most the second's.
abbrev pub AtMost : Leg → Leg → Type 0
AtMost (i, f) (i', f') = f * i' ≤ f' * i

AtMost-trans : (a b c : Leg) → 0 < b.0 → AtMost a b → AtMost b c → AtMost a c
AtMost-trans (ia, fa) (ib, fb) (ic, fc) pos h k =
    le_of_mul-le-mul_right {m = fa * ic} {n = fc * ia} {k = ib}
      (omega (arith, mul-le-mul_right ic h, mul-le-mul_right ia k)) pos

-- Of two legs the lesser is at most both, and is one of them.
lesser-AtMost :
    (b x : Leg)
    → 0 < b.0
    → 0 < x.0
    → let m = lesser (some b) x in (0 < m.0) × AtMost m b × AtMost m x × ((m ≡ b) ⊎ (m ≡ x))
lesser-AtMost (ib, fb) (ij, fj) p q = elim (Bool-cases (ltb (fj * ib) (fb * ij))) [
  | inl e ↦ rw e (q, omega (arith, ltb→lt _ _ e), omega arith, inr refl)
  | inr e ↦ rw e (p, omega arith, omega (arith, ltb→le _ _ e), inl refl)
]

-- A leg with nothing intended constrains nothing.
idle-AtMost : (m : Leg) (i f : ℕ) → (i == 0) ≡ true → AtMost m (i, f)
idle-AtMost m i f e = subst (λ k. m.1 * k ≤ f * m.0) (sym ((==_iff i 0).0 e)) (omega arith)

not_zero : (i : ℕ) → (i == 0) ≡ false → 0 < i
not_zero i e = ground arith

abbrev pub AllAtMost : Leg → List Leg → Type 0
AllAtMost m [] = Unit {0}
AllAtMost m (l ∷ ls) = AtMost m l × AllAtMost m ls

-- The leg is in the list.
abbrev pub IsIn : Leg → List Leg → Type 0
IsIn m [] = zero ≡ suc zero
IsIn m (l ∷ ls) = (m ≡ l) ⊎ IsIn m ls

best_leg-AtMost :
    (b : Leg) (ls : List Leg)
    → 0 < b.0
    → (m : Leg) × (best_leg (some b) ls ≡ some m)
      × (0 < m.0)
      × AtMost m b
      × AllAtMost m ls
      × ((m ≡ b) ⊎ IsIn m ls)
unfolding best_leg
best_leg-AtMost b [] p = (b, refl, p, omega arith, tt, inl refl)
best_leg-AtMost b ((i, f) ∷ ls) p = elim (Bool-cases (i == 0)) [
  | inl e ↦
      let (m, g, q, h, k, w) = best_leg-AtMost b ls p in
      rw e (m, g, q, h, (idle-AtMost m i f e, k), weaken w)
  | inr e ↦
      let (r, s, t, c) = lesser-AtMost b (i, f) p (not_zero i e) in
      let (m, g, q, h, k, w) = best_leg-AtMost (lesser (some b) (i, f)) ls r in
      rw e (
        m,
        g,
        q,
        AtMost-trans m (lesser (some b) (i, f)) b r h s,
        (AtMost-trans m (lesser (some b) (i, f)) (i, f) r h t, k),
        origin m w c,
      )
]
  where
    weaken : {m : Leg} → (m ≡ b) ⊎ IsIn m ls → (m ≡ b) ⊎ IsIn m ((i, f) ∷ ls)
    weaken (inl e) = inl e
    weaken (inr e) = inr (inr e)

    origin :
        (m : Leg)
        → (m ≡ lesser (some b) (i, f)) ⊎ IsIn m ls
        → (lesser (some b) (i, f) ≡ b) ⊎ (lesser (some b) (i, f) ≡ (i, f))
        → (m ≡ b) ⊎ IsIn m ((i, f) ∷ ls)
    origin m (inl e) (inl c) = inl (e ∙ c)
    origin m (inl e) (inr c) = inr (inl (e ∙ c))
    origin m (inr e) c = inr (inr e)

-- Nothing is intended of any leg.
abbrev pub AllIdle : List Leg → Type 0
AllIdle [] = Unit {0}
AllIdle (l ∷ ls) = (l.0 ≡ 0) × AllIdle ls

best_leg-none :
    (ls : List Leg)
    → ((best_leg none ls ≡ none) × AllIdle ls)
      ⊎ ((m : Leg) × (best_leg none ls ≡ some m) × (0 < m.0) × AllAtMost m ls × IsIn m ls)
unfolding best_leg
best_leg-none [] = inl (refl, tt)
best_leg-none ((i, f) ∷ ls) = elim (Bool-cases (i == 0)) [
  | inl e ↦ rw e (idle e (best_leg-none ls))
  | inr e ↦
      let (m, g, q, h, k, w) = best_leg-AtMost (i, f) ls (not_zero i e) in
      rw e (inr (m, g, q, (h, k), w))
]
  where
    idle :
        (i == 0) ≡ true
        → ((best_leg none ls ≡ none) × AllIdle ls)
          ⊎ ((m : Leg) × (best_leg none ls ≡ some m) × (0 < m.0) × AllAtMost m ls × IsIn m ls)
        → ((best_leg none ls ≡ none) × AllIdle ((i, f) ∷ ls))
          ⊎ ((m : Leg) × (best_leg none ls ≡ some m)
              × (0 < m.0)
              × AllAtMost m ((i, f) ∷ ls)
              × IsIn m ((i, f) ∷ ls))
    idle e (inl (n, a)) = inl (n, ((==_iff i 0).0 e, a))
    idle e (inr (m, g, q, k, w)) = inr (m, g, q, (idle-AtMost m i f e, k), inr w)

-- Each leg keeps, of what it is filled for, the floor of its intended quantity at the fraction of `m`.
abbrev pub AllKept : Leg → List Leg → List Qty → Type 0
AllKept m [] [] = Unit {0}
AllKept m (l ∷ ls) (s ∷ ss) = ((s ≤ l.1) × (l.1 - s ≡ l.0 * m.1 / m.0)) × AllKept m ls ss
AllKept m [] (s ∷ ss) = zero ≡ suc zero
AllKept m (l ∷ ls) [] = zero ≡ suc zero

surplus_each-AllKept :
    (m : Leg) (ls : List Leg) → 0 < m.0 → AllAtMost m ls → AllKept m ls (surplus_each m ls)
unfolding surplus_each
surplus_each-AllKept m [] p h = tt
surplus_each-AllKept m ((i, f) ∷ ls) p (h, k) = (
  (omega arith, kept (i * m.1 / m.0) (div-le_of_le-mul m.0 (omega arith))),
  surplus_each-AllKept m ls p k,
)
  where
    kept : (t : ℕ) → t ≤ f → f - (f - t) ≡ t
    kept t h = omega arith

-- The surpluses leave a hedged basket: unless nothing is intended of any leg, and no leg has a surplus then,
-- there is a leg filled to the least fraction, and every leg keeps, of what it is filled for, its intended
-- quantity at that fraction, rounded down.
pub surpluses-AllKept :
    (ls : List Leg)
    → (AllIdle ls × (surpluses ls ≡ no_surplus ls))
      ⊎ ((m : Leg) × IsIn m ls × (0 < m.0) × AllAtMost m ls × AllKept m ls (surpluses ls))
unfolding surpluses
surpluses-AllKept ls = elim (best_leg-none ls) [
  | inl (n, a) ↦ inl (a, rw (n, surpluses) refl)
  | inr (m, g, q, k, w) ↦ inr (m, w, q, k, rw (g, surpluses) (positive m q k))
]
  where
    positive :
        (m : Leg)
        → 0 < m.0
        → AllAtMost m ls
        → AllKept m ls (if m.0 == 0 then no_surplus ls else surplus_each (m.0, m.1) ls)
    positive m q k = elim (Bool-cases (m.0 == 0)) [
      | inl e ↦ absurd (omega (arith, (==_iff m.0 0).0 e))
      | inr e ↦ rw e (surplus_each-AllKept m ls q k)
    ]
