-- ===== src/Registry/Tests.antt =====
-- The components of a small registry: a partition of three markets and an implication.
use polybot.Common.{true, List, [], ◌∷◌, ◌≡◌, refl, length, ◌+◌, ◌<◌, some, and_then, arith}
use polybot.Instrument.{Partition, Relationship}
use polybot.Registry.Components.{
  Components, build, component_of, members, range_from, unions, partition_pairs, windows, union,
  find, parent, relationship_pairs, members_in, is_member,
}
use polybot.Registry.Components.Unions.{InRange}
use polybot.Registry.Components.Built.{build-HasComponent, HasComponent}

abbrev three_way : Partition
three_way = record {
  event = 0;
  markets = 0 ∷ 1 ∷ 2 ∷ [];
  yes_tokens = 0 ∷ 2 ∷ 4 ∷ [];
  no_tokens = 1 ∷ 3 ∷ 5 ∷ [];
  verified_exhaustive = true;
  neg_risk = true;
}

abbrev partitions : List Partition
partitions = three_way ∷ []

abbrev relationships : List Relationship
relationships = Relationship.implies 4 1 ∷ []

abbrev Names : Type 0
Names =
    (and_then (build 4 6 partitions relationships) (λ c. component_of 4 c 2) ≡ some 4)
    × (and_then (build 4 6 partitions relationships) (λ c. members 4 c 4)
        ≡ some (0 ∷ 1 ∷ 2 ∷ 4 ∷ []))
    × (and_then (build 4 6 partitions relationships) (λ c. members 4 c 3) ≡ some (3 ∷ []))

built_members : Names
unfolding build unions partition_pairs windows union find parent range_from relationship_pairs
    members_in is_member
built_members = (refl, refl, refl)

pairs-InRange : InRange 6 (partition_pairs partitions)
unfolding partition_pairs windows
pairs-InRange = (omega arith, omega arith, (omega arith, omega arith, tt))

ends-InRange : InRange 6 (relationship_pairs relationships)
unfolding relationship_pairs
ends-InRange = (omega arith, omega arith, tt)

fuel_enough : length (partition_pairs partitions) + length (relationship_pairs relationships) < 4
unfolding partition_pairs windows relationship_pairs
fuel_enough = omega arith

build-HasComponent_example :
    (c : Components) × (build 4 6 partitions relationships ≡ some c)
    × HasComponent 4 6 partitions relationships c 2
build-HasComponent_example =
    build-HasComponent 4 6 partitions relationships 2 pairs-InRange ends-InRange fuel_enough
      (omega arith)
