-- ===== src/Common/Maps.antt =====
-- Maps from numbers, as association lists in the order of their keys.
use Prim.Native.Nat.{ℕ, ◌<◌}
use mathlib.Core.Path.{◌≡◌, refl}
use mathlib.Core.Option.{Option, none, some}
use mathlib.Core.List.{List, [], ◌∷◌}
use native.Mathlib.Omega.{arith}
use mathlib.Core.Path.{subst}
use mathlib.Core.Bool.{false}
use mathlib.Core.Logic.{inl, inr}
use polybot.Common.Tests.{ltb, ◌==◌, if◌then◌else◌, Bool-cases, ==_iff, ltb→lt}

module _ {ℓ} {A : Type ℓ} where
  unfoldable pub lookup : List (ℕ × A) → ℕ → Option A
  lookup [] t = none
  lookup ((k, v) ∷ xs) t = if k == t then some v else lookup xs t

  -- A write of a key, in the order of the keys.
  unfoldable pub put : List (ℕ × A) → ℕ → A → List (ℕ × A)
  put [] t v = (t, v) ∷ []
  put ((k, w) ∷ xs) t v =
      if k == t then (t, v) ∷ xs else if ltb t k then (t, v) ∷ (k, w) ∷ xs else (k, w) ∷ put xs t v

  -- `HashMap::remove`
  unfoldable pub remove : List (ℕ × A) → ℕ → List (ℕ × A)
  remove [] t = []
  remove ((k, w) ∷ xs) t = if k == t then remove xs t else (k, w) ∷ remove xs t

module _ {ℓ} {A : Type ℓ} where
  -- A written key reads back, and the others keep their values, in any order.
  pub lookup-put :
      (xs : List (ℕ × A)) (t u : ℕ) (v : A)
      → lookup (put xs t v) u ≡ (if t == u then some v else lookup xs u)
  unfolding lookup put
  lookup-put [] t u v = refl
  lookup-put ((k, w) ∷ xs) t u v = ground (arith, lookup-put xs t u v)

  -- A removed key reads as absent, and the others keep their values.
  pub lookup-remove :
      (xs : List (ℕ × A)) (t u : ℕ)
      → lookup (remove xs t) u ≡ (if t == u then none else lookup xs u)
  unfolding lookup remove
  lookup-remove [] t u = ground arith
  lookup-remove ((k, w) ∷ xs) t u = ground (arith, lookup-remove xs t u)

-- All keys are above `k`.
abbrev pub Above {ℓ} : {A : Type ℓ} → ℕ → List (ℕ × A) → Type 0
Above k [] = Unit {0}
Above k ((t, v) ∷ xs) = (k < t) × Above k xs

-- The keys are in strict order.
abbrev pub IsSorted {ℓ} : {A : Type ℓ} → List (ℕ × A) → Type 0
IsSorted [] = Unit {0}
IsSorted ((t, v) ∷ xs) = Above t xs × IsSorted xs

module _ {ℓ} {A : Type ℓ} where
  weaken_bound : (j k : ℕ) (xs : List (ℕ × A)) → j < k → Above k xs → Above j xs
  weaken_bound j k [] h a = tt
  weaken_bound j k ((t, v) ∷ xs) h a = (omega (arith, h, a.0), weaken_bound j k xs h a.1)

  put-Above : (xs : List (ℕ × A)) (j k : ℕ) (v : A) → j < k → Above j xs → Above j (put xs k v)
  unfolding put
  put-Above [] j k v h a = (h, tt)
  put-Above ((t, w) ∷ xs) j k v h a = ground (arith, put-Above xs j k v h a.1)

  pub put-IsSorted : (xs : List (ℕ × A)) (k : ℕ) (v : A) → IsSorted xs → IsSorted (put xs k v)
  unfolding put
  put-IsSorted [] k v s = (tt, tt)
  put-IsSorted ((t, w) ∷ xs) k v s = elim (Bool-cases (t == k)) [
    | inl e ↦ rw e (subst (λ n. Above n xs) ((==_iff t k).0 e) s.0, s.1)
    | inr e ↦ elim (Bool-cases (ltb k t)) [
      | inl l ↦ let lt = ltb→lt k t l in rw (e, l) ((lt, weaken_bound k t xs lt s.0), s)
      | inr l ↦ rw (e, l) (put-Above xs t k v (behind t k e l) s.0, put-IsSorted xs k v s.1)
    ]
  ]
    where
      behind : (a b : ℕ) → (a == b) ≡ false → ltb b a ≡ false → a < b
      behind a b e l = ground arith

  remove-Above : (xs : List (ℕ × A)) (j k : ℕ) → Above j xs → Above j (remove xs k)
  unfolding remove
  remove-Above [] j k a = tt
  remove-Above ((t, w) ∷ xs) j k a = ground (arith, remove-Above xs j k a.1)

  pub remove-IsSorted : (xs : List (ℕ × A)) (k : ℕ) → IsSorted xs → IsSorted (remove xs k)
  unfolding remove
  remove-IsSorted [] k s = tt
  remove-IsSorted ((t, w) ∷ xs) k s =
      ground (arith, remove-Above xs t k s.0, remove-IsSorted xs k s.1)
