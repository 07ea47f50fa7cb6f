-- ===== src/Registry/Components/Connected.antt =====
-- The classes that the loops of `build` make are the markets connected.
use polybot.Common.{◌≡◌, refl, sym, ◌∙◌, subst, List, [], ◌∷◌, inl, inr, Bool-cases, ◌==◌, ==_iff}
use polybot.Instrument.{MarketId, Partition, Relationship}
use polybot.Registry.Components.{windows, partition_pairs, relationship_pairs}
use polybot.Registry.Components.Unions.{Classes, merge, merges}
use polybot.Registry.Components.Linked.{
  In, Linked, AllPairs, AllPairs-append, SameClass, merges_keep, merges-AllPairs, partitions_joined,
  relationships_joined,
}

module _ (ps : List Partition) (rs : List Relationship) where
  -- Only connected markets stand for each other.
  abbrev Sound : Classes → Type 0
  Sound f = (i j : MarketId) → f i ≡ f j → Linked ps rs i j

  merge-Sound : (f : Classes) (a b : MarketId) → Sound f → Linked ps rs a b → Sound (merge f a b)
  merge-Sound f a b s l i j h = elim (Bool-cases (f i == f b)) [
    | inl x ↦ elim (Bool-cases (f j == f b)) [
      | inl y ↦ s i j ((==_iff (f i) (f b)).0 x ∙ sym ((==_iff (f j) (f b)).0 y))
      | inr y ↦
          Linked.chain (s i b ((==_iff (f i) (f b)).0 x))
            (Linked.chain (Linked.flip l) (s a j (rw (x, y) at h)))
    ]
    | inr x ↦ elim (Bool-cases (f j == f b)) [
      | inl y ↦
          Linked.chain (s i a (rw (x, y) at h))
            (Linked.chain l (Linked.flip (s j b ((==_iff (f j) (f b)).0 y))))
      | inr y ↦ s i j (rw (x, y) at h)
    ]
  ]

  merges-Sound :
      (f : Classes) (es : List (MarketId × MarketId))
      → Sound f
      → AllPairs (Linked ps rs) es
      → Sound (merges f es)
  merges-Sound f [] s h = s
  merges-Sound f ((a, b) ∷ es) s h = merges-Sound (merge f a b) es (merge-Sound f a b s h.0) h.1

  windows-Linked :
      (p : Partition) (ms : List MarketId)
      → In p ps
      → ((m : MarketId) → In m ms → In m p.markets)
      → AllPairs (Linked ps rs) (windows ms)
  unfolding windows
  windows-Linked p [] i h = tt
  windows-Linked p (a ∷ []) i h = tt
  windows-Linked p (a ∷ b ∷ ms) i h = (
    Linked.together p i (h a (inl refl)) (h b (inr (inl refl))),
    windows-Linked p (b ∷ ms) i (λ m x. h m (inr x)),
  )

  partitions-Linked :
      (qs : List Partition)
      → ((p : Partition) → In p qs → In p ps)
      → AllPairs (Linked ps rs) (partition_pairs qs)
  unfolding partition_pairs
  partitions-Linked [] h = tt
  partitions-Linked (q ∷ qs) h =
      (AllPairs-append (Linked ps rs) (windows q.markets) (partition_pairs qs)).1 (
        windows-Linked q q.markets (h q (inl refl)) (λ m x. x),
        partitions-Linked qs (λ p x. h p (inr x)),
      )

  relationships-Linked :
      (qs : List Relationship)
      → ((r : Relationship) → In r qs → In r rs)
      → AllPairs (Linked ps rs) (relationship_pairs qs)
  unfolding relationship_pairs
  relationships-Linked [] h = tt
  relationships-Linked (q ∷ qs) h =
      (Linked.related q (h q (inl refl)), relationships-Linked qs (λ r x. h r (inr x)))

  -- The classes that the loops of `build` make.
  abbrev pub built : Classes
  built = merges (merges (λ i. i) (partition_pairs ps)) (relationship_pairs rs)

  pub built-Sound : Sound built
  built-Sound =
      merges-Sound _ (relationship_pairs rs)
        (merges-Sound (λ i. i) (partition_pairs ps)
          (λ i j h. subst (Linked ps rs i) h Linked.itself) (partitions-Linked ps (λ p x. x)))
        (relationships-Linked rs (λ r x. x))

  merges_kept :
      (f : Classes) (es ds : List (MarketId × MarketId))
      → AllPairs (SameClass f) ds
      → AllPairs (SameClass (merges f es)) ds
  merges_kept f es [] h = tt
  merges_kept f es ((a, b) ∷ ds) h = (merges_keep f es a b h.0, merges_kept f es ds h.1)

  pub built-Complete : (i j : MarketId) → Linked ps rs i j → built i ≡ built j
  built-Complete i j (Linked.together p x y z) =
      partitions_joined built ps p i j
        (merges_kept _ (relationship_pairs rs) (partition_pairs ps)
          (merges-AllPairs (λ i. i) (partition_pairs ps)))
        x y z
  built-Complete i j (Linked.related r x) =
      relationships_joined built rs r (merges-AllPairs _ (relationship_pairs rs)) x
  built-Complete i j Linked.itself = refl
  built-Complete i j (Linked.flip l) = sym (built-Complete j i l)
  built-Complete i j (Linked.chain {b = k} l m) = built-Complete i k l ∙ built-Complete k j m
