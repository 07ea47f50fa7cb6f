-- ===== src/Registry/Components/Built.antt =====
-- The components that `build` makes, and their members.
use polybot.Common.{
  ℕ, zero, suc, ◌≡◌, refl, sym, ap, ◌∙◌, Option, none, some, List, [], ◌∷◌, ◌<◌, ◌≤◌, ◌+◌, ◌↔◌, inl,
  inr, and_then, Bool-cases, ◌==◌, ==_iff, length, arith, length-set,
}
use polybot.Instrument.{MarketId, Partition, Relationship}
use polybot.Registry.Components.{
  Components, range_from, find, link, union, partition_pairs, relationship_pairs, unions, build,
  component_of, parent, is_member, members_in, members,
}
use polybot.Registry.Components.Finds.{find_root}
use polybot.Registry.Components.Unions.{
  Classes, Represents, InRange, unions-Represents, Represents-fuel,
}
use polybot.Registry.Components.Linked.{In, Linked}
use polybot.Registry.Components.Connected.{built, built-Sound, built-Complete}

range-parent : (m n i : ℕ) → i < n → parent (range_from m n) i ≡ some (m + i)
unfolding range_from parent
range-parent m zero i l = absurd (omega (arith, l))
range-parent m (suc n) zero l = ap some (omega arith)
range-parent m (suc n) (suc i) l =
    range-parent (suc m) n i (omega (arith, l)) ∙ ap some (omega arith)

range-length : (m n : ℕ) → length (range_from m n) ≡ n
unfolding range_from
range-length m zero = refl
range-length m (suc n) = ap suc (range-length (suc m) n)

range-In : (m n j : ℕ) → In j (range_from m n) ↔ ((m ≤ j) × (j < m + n))
unfolding range_from
range-In m zero j = (λ h. absurd h, λ h. omega (arith, h))
range-In m (suc n) j = (
  λ h. elim h [
    | inl e ↦ (omega (arith, e), omega (arith, e))
    | inr e ↦ let r = (range-In (suc m) n j).0 e in (omega (arith, r), omega (arith, r))
  ],
  λ h. elim (Bool-cases (j == m)) [
    | inl b ↦ inl ((==_iff j m).0 b)
    | inr b ↦ inr ((range-In (suc m) n j).1 (ground (arith, b, h), ground (arith, h)))
  ],
)

initial-Represents : (n : ℕ) → Represents 1 n (range_from 0 n) (λ i. i)
initial-Represents n i l =
    find_root 0 (range_from 0 n) i (range-parent 0 n i l ∙ ap some (omega arith))

link-length : (c : Components) (x y : ℕ) → length (link c x y) ≡ length c
link-length c x y = elim (Bool-cases (x == y)) [
  | inl e ↦ rw e refl
  | inr e ↦ rw e (length-set c y x)
]

union-length :
    (fuel : ℕ) (c d : Components) (a b : ℕ) → union fuel c a b ≡ some d → length d ≡ length c
unfolding union
union-length fuel c d a b = go (find fuel c a) (find fuel c b)
  where
    go :
        (x y : Option ℕ)
        → and_then x (λ ra. and_then y (λ rb. some (link c ra rb))) ≡ some d
        → length d ≡ length c
    go none y h = cc
    go (some x) none h = cc
    go (some x) (some y) h = ap length (cc h) ∙ link-length c x y

unions-length :
    (fuel : ℕ) (c d : Components) (es : List (MarketId × MarketId))
    → unions fuel c es ≡ some d
    → length d ≡ length c
unfolding unions
unions-length fuel c d [] h = ap length (cc h)
unions-length fuel c d ((a, b) ∷ es) h =
    go (union fuel c a b) refl (λ x g. unions-length fuel x d es g) h
  where
    go :
        (o : Option Components)
        → union fuel c a b ≡ o
        → ((x : Components) → unions fuel x es ≡ some d → length d ≡ length x)
        → and_then o (λ e. unions fuel e es) ≡ some d
        → length d ≡ length c
    go none e rest g = cc
    go (some x) e rest g = rest x g ∙ union-length fuel c x a b e

-- The members found in a list of markets.
members-In :
    (fuel n : ℕ) (p : Components) (f : Classes) (c : ℕ)
    → Represents fuel n p f
    → (is : List MarketId) → ((i : MarketId) → In i is → i < n)
    → (ms : List MarketId) × (members_in fuel p c is ≡ some ms)
      × ((j : MarketId) → In j ms ↔ (In j is × (f j ≡ c)))
unfolding members_in is_member
members-In fuel n p f c h [] l = ([], refl, λ j. (λ x. absurd x, λ x. absurd x.0))
members-In fuel n p f c h (i ∷ is) l =
    let rest = members-In fuel n p f c h is (λ j x. l j (inr x)) in
    elim (Bool-cases (f i == c)) [
      | inl b ↦ (
        i ∷ rest.0,
        rw (h i (l i (inl refl)), b, rest.1) refl,
        λ j. (
          λ x. elim x [
            | inl e ↦ (inl e, ap f e ∙ (==_iff (f i) c).0 b)
            | inr e ↦ (inr ((rest.2 j).0 e).0, ((rest.2 j).0 e).1)
          ],
          λ x. elim x.0 [ inl e ↦ inl e | inr e ↦ inr ((rest.2 j).1 (e, x.1)) ],
        ),
      )
      | inr b ↦ (
        rest.0,
        rw (h i (l i (inl refl)), b) rest.1,
        λ j. (
          λ x. (inr ((rest.2 j).0 x).0, ((rest.2 j).0 x).1),
          λ x. elim x.0 [
            | inl e ↦ cc (b, (==_iff (f i) c).1 (sym (ap f e) ∙ x.1))
            | inr e ↦ (rest.2 j).1 (e, x.1)
          ],
        ),
      )
    ]

-- The market has a component, whose members are the markets below the count of that component, and
-- just those linked with the market.
abbrev pub HasComponent :
    ℕ → ℕ → List Partition → List Relationship → Components → MarketId → Type 0
HasComponent fuel n ps rs c m =
    (r : ℕ) × (component_of fuel c m ≡ some r)
    × (ms : List MarketId) × (members fuel c r ≡ some ms)
    × ((j : MarketId)
        → (In j ms ↔ ((j < n) × (component_of fuel c j ≡ some r)))
          × (In j ms ↔ ((j < n) × Linked ps rs m j)))

eq_of_some : {a b : ℕ} → ◌≡◌ {A = Option ℕ} (some a) (some b) → a ≡ b
eq_of_some h = cc

found-HasComponent :
    (fuel n : ℕ) (ps : List Partition) (rs : List Relationship) (c : Components) (m : MarketId)
    → Represents fuel n c (built ps rs)
    → length c ≡ n
    → m < n
    → HasComponent fuel n ps rs c m
found-HasComponent fuel n ps rs c m h size l =
    let f = built ps rs in
    let within = range-In 0 (length c) in
    let got =
      members-In fuel n c f (f m) h (range_from 0 (length c))
        (λ i x. omega (arith, size, ((within i).0 x).1)) in
    let below : (j : MarketId) → In j got.0 → j < n =
      λ j x. omega (arith, size, ((within j).0 ((got.2 j).0 x).0).1) in
    let listed : (j : MarketId) → j < n → f j ≡ f m → In j got.0 =
      λ j lj e. (got.2 j).1 ((within j).1 (omega arith, omega (arith, size, lj)), e) in
    (
      f m,
      h m l,
      got.0,
      got.1,
      λ j. (
        (
          λ x. (below j x, h j (below j x) ∙ ap some ((got.2 j).0 x).1),
          λ k. listed j k.0 (eq_of_some (sym (h j k.0) ∙ k.1)),
        ),
        (
          λ x. (below j x, built-Sound ps rs m j (sym ((got.2 j).0 x).1)),
          λ k. listed j k.0 (sym (built-Complete ps rs m j k.1)),
        ),
      ),
    )

-- If the neighbours in a partition and the ends of a relationship are below the count of the markets,
-- and there is fuel for one step more than these pairs, the components are built, and every market
-- below the count has one: its members are the markets below the count of that component, and just
-- those that partitions and relationships connect with the market.
pub build-HasComponent :
    (fuel n : ℕ) (ps : List Partition) (rs : List Relationship) (m : MarketId)
    → InRange n (partition_pairs ps)
    → InRange n (relationship_pairs rs)
    → length (partition_pairs ps) + length (relationship_pairs rs) < fuel
    → m < n
    → (c : Components) × (build fuel n ps rs ≡ some c) × HasComponent fuel n ps rs c m
unfolding build
build-HasComponent fuel n ps rs m hp hr enough l =
    let start = range_from 0 n in
    let one =
      unions-Represents fuel 1 n start (λ i. i) (partition_pairs ps) (omega (arith, enough))
        (initial-Represents n) hp in
    let two =
      unions-Represents fuel (1 + length (partition_pairs ps)) n one.0 _ (relationship_pairs rs)
        (omega (arith, enough)) one.2 hr in
    (
      two.0,
      ap (λ o. and_then o (λ c. unions fuel c (relationship_pairs rs))) one.1 ∙ two.1,
      found-HasComponent fuel n ps rs two.0 m
          (Represents-fuel fuel _ n two.0 (built ps rs) (omega (arith, enough)) two.2)
          (unions-length fuel one.0 two.0 (relationship_pairs rs) two.1
            ∙ unions-length fuel start one.0 (partition_pairs ps) one.1
            ∙ range-length 0 n)
          l,
    )
