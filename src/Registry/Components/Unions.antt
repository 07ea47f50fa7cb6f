-- ===== src/Registry/Components/Unions.antt =====
-- The partition of the markets that a sequence of unions makes.
use polybot.Common.{
  ℕ, zero, suc, ◌≡◌, refl, ap, ◌∙◌, subst, true, some, List, [], ◌∷◌, ◌<◌, ◌≤◌, ◌+◌, ◌-◌, inl, inr,
  and_then, Bool-cases, ◌==◌, if◌then◌else◌, length, arith,
}
use polybot.Registry.Components.{Components, find, link, union, unions}
use polybot.Registry.Components.Finds.{find-set, find_more, find-parent}

-- The market that stands for each market.
abbrev pub Classes : Type 0
Classes = ℕ → ℕ

abbrev pub merge : Classes → ℕ → ℕ → Classes
merge f a b i = if f i == f b then f a else f i

-- A search with that fuel finds the representative of every market below the count.
abbrev pub Represents : ℕ → ℕ → Components → Classes → Type 0
Represents k n c f = (i : ℕ) → i < n → find k c i ≡ some (f i)

Represents-more :
    (k n : ℕ) (c : Components) (f : Classes) → Represents k n c f → Represents (suc k) n c f
Represents-more k n c f h i l = find_more k c i (f i) (h i l)

Represents-add :
    (d k n : ℕ) (c : Components) (f : Classes) → Represents k n c f → Represents (d + k) n c f
Represents-add zero k n c f h i l = subst (λ m. find m c i ≡ some (f i)) (omega arith) (h i l)
Represents-add (suc d) k n c f h i l =
    subst (λ m. find m c i ≡ some (f i)) (omega arith)
      (Represents-more (d + k) n c f (Represents-add d k n c f h) i l)

pub Represents-fuel :
    (fuel k n : ℕ) (c : Components) (f : Classes)
    → k ≤ fuel
    → Represents k n c f
    → Represents fuel n c f
Represents-fuel fuel k n c f m h i l =
    subst (λ u. find u c i ≡ some (f i)) (omega (arith, m))
      (Represents-add (fuel - k) k n c f h i l)

same_class : (x y z : ℕ) → (x == y) ≡ true → z ≡ (if z == y then x else z)
same_class x y z h = ground (arith, h)

link-Represents :
    (k n : ℕ) (c : Components) (f : Classes) (a b : ℕ)
    → Represents k n c f
    → a < n
    → b < n
    → Represents (suc k) n (link c (f a) (f b)) (merge f a b)
link-Represents k n c f a b h la lb i l = elim (Bool-cases (f a == f b)) [
  | inl e ↦ rw e (find_more k c i (f i) (h i l) ∙ ap some (same_class (f a) (f b) (f i) e))
  | inr e ↦ rw e (
      find-set c (f a) (f b) (find-parent k c a (f a) (h a la)) (find-parent k c b (f b) (h b lb)) e
        k i (f i) (h i l))
]

union_found :
    (fuel k n : ℕ) (c : Components) (f : Classes) (a b : ℕ)
    → k ≤ fuel
    → Represents k n c f
    → a < n
    → b < n
    → union fuel c a b ≡ some (link c (f a) (f b))
unfolding union
union_found fuel k n c f a b m h la lb =
    let g = Represents-fuel fuel k n c f m h in rw (g a la, g b lb) refl

-- Every market of a pair is below the count.
abbrev pub InRange : ℕ → List (ℕ × ℕ) → Type 0
InRange n [] = Unit {0}
InRange n ((a, b) ∷ es) = (a < n) × (b < n) × InRange n es

abbrev pub merges : Classes → List (ℕ × ℕ) → Classes
merges f [] = f
merges f ((a, b) ∷ es) = merges (merge f a b) es

pub unions-Represents :
    (fuel k n : ℕ) (c : Components) (f : Classes) (es : List (ℕ × ℕ))
    → k + length es ≤ fuel
    → Represents k n c f
    → InRange n es
    → (d : Components) × (unions fuel c es ≡ some d) × Represents (k + length es) n d (merges f es)
unfolding unions
unions-Represents fuel k n c f [] m h r =
    (c, refl, λ i l. subst (λ u. find u c i ≡ some (f i)) (omega arith) (h i l))
unions-Represents fuel k n c f ((a, b) ∷ es) m h r =
    let d = link c (f a) (f b) in
    let rest =
      unions-Represents fuel (suc k) n d (merge f a b) es (omega (arith, m))
        (link-Represents k n c f a b h r.0 r.1) r.2 in
    (
      rest.0,
      ap (λ o. and_then o (λ d. unions fuel d es))
            (union_found fuel k n c f a b (omega (arith, m)) h r.0 r.1)
          ∙ rest.1,
      λ i l.
          subst (λ u. find u rest.0 i ≡ some (merges f ((a, b) ∷ es) i)) (omega arith) (rest.2 i l),
    )
