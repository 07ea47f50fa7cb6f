-- ===== src/Registry/Components/Linked.antt =====
-- Markets that partitions and relationships connect, and the classes that join them.
use polybot.Common.{
  ℕ, ◌≡◌, sym, ap, ◌∙◌, subst, List, [], ◌∷◌, ◌++◌, ◌⊎◌, ◌↔◌, inl, inr, ◌==◌, if◌then◌else◌, arith,
}
use polybot.Instrument.{MarketId, Partition, Relationship}
use polybot.Registry.Components.{windows, partition_pairs, ends, relationship_pairs}
use polybot.Registry.Components.Unions.{Classes, merge, merges}

abbrev pub In : {A : Type 0} → A → List A → Type 0
In x [] = ⊥
In x (y ∷ ys) = (x ≡ y) ⊎ In x ys

-- Two markets are connected by a partition that lists both, by a relationship, and in chains of these.
pub data Linked (ps : List Partition) (rs : List Relationship) : MarketId → MarketId → Type 0 where
  together :
      (p : Partition) {a b : MarketId}
      → In p ps
      → In a p.markets
      → In b p.markets
      → Linked ps rs a b
  related : (r : Relationship) → In r rs → Linked ps rs (ends r).0 (ends r).1
  itself : {a : MarketId} → Linked ps rs a a
  flip : {a b : MarketId} → Linked ps rs a b → Linked ps rs b a
  chain : {a b c : MarketId} → Linked ps rs a b → Linked ps rs b c → Linked ps rs a c

abbrev pub AllPairs : (MarketId → MarketId → Type 0) → List (MarketId × MarketId) → Type 0
AllPairs P [] = Unit {0}
AllPairs P ((a, b) ∷ es) = P a b × AllPairs P es

pub AllPairs-append :
    (P : MarketId → MarketId → Type 0) (xs ys : List (MarketId × MarketId))
    → AllPairs P (xs ++ ys) ↔ (AllPairs P xs × AllPairs P ys)
AllPairs-append P [] ys = (λ h. (tt, h), λ h. h.1)
AllPairs-append P ((a, b) ∷ xs) ys =
    let rest = AllPairs-append P xs ys in
    (λ h. ((h.0, (rest.0 h.1).0), (rest.0 h.1).1), λ h. (h.0.0, rest.1 (h.0.1, h.1)))

abbrev pub SameClass : Classes → MarketId → MarketId → Type 0
SameClass f a b = f a ≡ f b

-- Merged classes stay merged.
pub merges_keep :
    (f : Classes) (es : List (MarketId × MarketId)) (i j : ℕ)
    → f i ≡ f j
    → merges f es i ≡ merges f es j
merges_keep f [] i j h = h
merges_keep f ((a, b) ∷ es) i j h =
    merges_keep (merge f a b) es i j (ap (λ x. if x == f b then f a else x) h)

merge_joins : (x y : ℕ) → (if x == y then x else x) ≡ (if y == y then x else y)
merge_joins x y = ground arith

pub merges-AllPairs :
    (f : Classes) (es : List (MarketId × MarketId)) → AllPairs (SameClass (merges f es)) es
merges-AllPairs f [] = tt
merges-AllPairs f ((a, b) ∷ es) =
    (merges_keep (merge f a b) es a b (merge_joins (f a) (f b)), merges-AllPairs (merge f a b) es)

-- All of a list of markets stand where its first does.
windows_joined :
    (f : Classes) (a : MarketId) (ms : List MarketId)
    → AllPairs (SameClass f) (windows (a ∷ ms))
    → (b : MarketId) → In b (a ∷ ms)
    → f a ≡ f b
unfolding windows
windows_joined f a [] h b (inl e) = ap f (sym e)
windows_joined f a [] h b (inr e) = absurd e
windows_joined f a (c ∷ ms) h b (inl e) = ap f (sym e)
windows_joined f a (c ∷ ms) h b (inr e) = h.0 ∙ windows_joined f c ms h.1 b e

partition_joined :
    (f : Classes) (ms : List MarketId) (a b : MarketId)
    → AllPairs (SameClass f) (windows ms)
    → In a ms
    → In b ms
    → f a ≡ f b
partition_joined f [] a b h x y = absurd x
partition_joined f (m ∷ ms) a b h x y =
    sym (windows_joined f m ms h a x) ∙ windows_joined f m ms h b y

pub partitions_joined :
    (f : Classes) (ps : List Partition) (p : Partition) (a b : MarketId)
    → AllPairs (SameClass f) (partition_pairs ps)
    → In p ps
    → In a p.markets
    → In b p.markets
    → f a ≡ f b
unfolding partition_pairs
partitions_joined f [] p a b h i x y = absurd i
partitions_joined f (q ∷ ps) p a b h (inl e) x y =
    let here = (AllPairs-append (SameClass f) (windows q.markets) (partition_pairs ps)).0 h in
    partition_joined f q.markets a b here.0 (subst (λ r. In a r.markets) e x)
      (subst (λ r. In b r.markets) e y)
partitions_joined f (q ∷ ps) p a b h (inr i) x y =
    let here = (AllPairs-append (SameClass f) (windows q.markets) (partition_pairs ps)).0 h in
    partitions_joined f ps p a b here.1 i x y

pub relationships_joined :
    (f : Classes) (rs : List Relationship) (r : Relationship)
    → AllPairs (SameClass f) (relationship_pairs rs)
    → In r rs
    → f (ends r).0 ≡ f (ends r).1
unfolding relationship_pairs
relationships_joined f [] r h i = absurd i
relationships_joined f (q ∷ rs) r h (inl e) = subst (λ s. f (ends s).0 ≡ f (ends s).1) (sym e) h.0
relationships_joined f (q ∷ rs) r h (inr i) = relationships_joined f rs r h.1 i
