-- ===== src/Registry/Components/Finds.antt =====
-- Searches after a link, and with more fuel.
use polybot.Common.{
  ℕ, zero, suc, ◌≡◌, refl, sym, ap, ◌∙◌, subst, Bool, true, false, Option, none, some, [], ◌∷◌, ◌⊎◌,
  inl, inr, Bool-cases, ◌==◌, ==_iff, if◌then◌else◌, set, arith,
}
use polybot.Registry.Components.{Components, parent, climb, find}

pub parent-set :
    (c : Components) (i j v w : ℕ)
    → parent c i ≡ some w
    → parent (set c i v) j ≡ (if i == j then some v else parent c j)
unfolding parent
parent-set [] i j v w h = cc
parent-set (x ∷ c) zero zero v w h = refl
parent-set (x ∷ c) zero (suc j) v w h = ground arith
parent-set (x ∷ c) (suc i) zero v w h = ground arith
parent-set (x ∷ c) (suc i) (suc j) v w h =
    parent-set c i j v w h ∙ ap (λ b. if b then some v else parent c j) (ground arith)

same_number : (n : ℕ) → (n == n) ≡ true
same_number n = (==_iff n n).1 refl

-- A test that reaches a root is at it, or goes on from the parent.
climb_cases :
    (go : ℕ → Option ℕ) (i r : ℕ) (o : Option ℕ)
    → climb go i o ≡ some r
    → ((o ≡ some i) × (i ≡ r)) ⊎ ((j : ℕ) × (o ≡ some j) × ((j == i) ≡ false) × (go j ≡ some r))
climb_cases go i r none h = cc
climb_cases go i r (some j) h = elim (Bool-cases (j == i)) [
  | inl b ↦ inl (ap some ((==_iff j i).0 b), cc ((rw b at h)))
  | inr b ↦ inr (j, refl, b, rw b at h)
]

climb_root : (go : ℕ → Option ℕ) (i : ℕ) (o : Option ℕ) → o ≡ some i → climb go i o ≡ some i
climb_root go i none h = cc
climb_root go i (some j) h = rw ((==_iff j i).1 (cc h)) refl

climb_step : (go : ℕ → Option ℕ) (i j : ℕ) → (j == i) ≡ false → climb go i (some j) ≡ go j
climb_step go i j b = ap (λ c. if c then some i else go j) b

climb_up :
    (go : ℕ → Option ℕ) (i j : ℕ) (o : Option ℕ)
    → o ≡ some j
    → (j == i) ≡ false
    → climb go i o ≡ go j
climb_up go i j o h b = ap (climb go i) h ∙ climb_step go i j b

find-suc : (k : ℕ) (c : Components) (i : ℕ) → find (suc k) c i ≡ climb (find k c) i (parent c i)
unfolding find
find-suc k c i = refl

find_zero : (P : Type 0) (c : Components) (i r : ℕ) → find zero c i ≡ some r → P
unfolding find
find_zero P c i r h = cc

pub find_root : (k : ℕ) (c : Components) (i : ℕ) → parent c i ≡ some i → find (suc k) c i ≡ some i
find_root k c i h = find-suc k c i ∙ climb_root (find k c) i (parent c i) h

find_up :
    (k : ℕ) (c : Components) (i j : ℕ)
    → parent c i ≡ some j
    → (j == i) ≡ false
    → find (suc k) c i ≡ find k c j
find_up k c i j h b = find-suc k c i ∙ climb_up (find k c) i j (parent c i) h b

-- What a search finds is a root.
pub find-parent : (k : ℕ) (c : Components) (i r : ℕ) → find k c i ≡ some r → parent c r ≡ some r
find-parent zero c i r h = find_zero (parent c r ≡ some r) c i r h
find-parent (suc k) c i r h =
    elim (climb_cases (find k c) i r (parent c i) (sym (find-suc k c i) ∙ h)) [
      | inl (e, f) ↦ subst (λ s. parent c s ≡ some s) f e
      | inr (j, e, n, f) ↦ find-parent k c j r f
    ]

-- More fuel finds the same root.
pub find_more : (k : ℕ) (c : Components) (i r : ℕ) → find k c i ≡ some r → find (suc k) c i ≡ some r
find_more zero c i r h = find_zero (find 1 c i ≡ some r) c i r h
find_more (suc k) c i r h =
    elim (climb_cases (find k c) i r (parent c i) (sym (find-suc k c i) ∙ h)) [
      | inl (e, f) ↦ find_root (suc k) c i e ∙ ap some f
      | inr (j, e, n, f) ↦ find_up (suc k) c i j e n ∙ find_more k c j r f
    ]

module _ (c : Components) (ra rb : ℕ) (a_root : parent c ra ≡ some ra)
    (b_root : parent c rb ≡ some rb) (apart : (ra == rb) ≡ false) where
  at_other : (i : ℕ) → (rb == i) ≡ false → parent (set c rb ra) i ≡ parent c i
  at_other i n = parent-set c rb i ra rb b_root ∙ ap (λ b. if b then some ra else parent c i) n

  at_linked : parent (set c rb ra) rb ≡ some ra
  at_linked =
      parent-set c rb rb ra rb b_root
      ∙ ap (λ b. if b then some ra else parent c rb) (same_number rb)

  below_other :
      (i j : ℕ) → parent c i ≡ some j → (j == i) ≡ false → (b : Bool) → (rb == i) ≡ b → b ≡ false
  below_other i j e n true h =
      let same : j ≡ i = cc (b_root, e, (==_iff rb i).0 h) in cc (n, (==_iff j i).1 same)
  below_other i j e n false h = refl

  flipped : (rb == ra) ≡ false
  flipped = ground (arith, apart)

  -- After a link, a search finds the new root for those under the old one.
  pub find-set :
      (k i r : ℕ)
      → find k c i ≡ some r
      → find (suc k) (set c rb ra) i ≡ some (if r == rb then ra else r)
  find-set zero i r h =
      find_zero (find 1 (set c rb ra) i ≡ some (if r == rb then ra else r)) c i r h
  find-set (suc k) i r h =
      elim (climb_cases (find k c) i r (parent c i) (sym (find-suc k c i) ∙ h)) [
        | inl (e, f) ↦
            subst (λ s. find (suc (suc k)) (set c rb ra) i ≡ some (if s == rb then ra else s)) f
              (elim (Bool-cases (i == rb)) [
                | inl b ↦ rw b (
                    subst (λ s. find (suc (suc k)) (set c rb ra) s ≡ some ra)
                      (sym ((==_iff i rb).0 b))
                      (find_up (suc k) (set c rb ra) rb ra at_linked apart
                        ∙ find_root k (set c rb ra) ra (at_other ra flipped ∙ a_root)))
                | inr b ↦
                    rw b (find_root (suc k) (set c rb ra) i (at_other i (ground (arith, b)) ∙ e))
              ])
        | inr (j, e, n, f) ↦
            find_up (suc k) (set c rb ra) i j (at_other i (below_other i j e n (rb == i) refl) ∙ e)
              n
            ∙ find-set k j r f
      ]
