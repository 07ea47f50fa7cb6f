-- ===== src/Registry/Components.antt =====
-- crates/registry/src/components.rs: the components of the markets, by union-find. An index out of
-- range, where the source panics, is `none`. The `while` of `find` runs on fuel; it is `none` too
-- where the fuel is out.
use polybot.Common.{
  ℕ, zero, suc, Option, none, some, List, [], ◌∷◌, ◌++◌, and_then, ◌==◌, if◌then◌else◌, set, length,
}
use polybot.Instrument.{MarketId, Partition, Relationship}
pub mod Finds
pub mod Unions
pub mod Linked
pub mod Connected
pub mod Built

abbrev pub ComponentId : Type 0
ComponentId = ℕ

-- `parent`, indexed by the markets.
abbrev pub Components : Type 0
Components = List ℕ

-- `(k..k + n).collect()`
unfoldable pub range_from : ℕ → ℕ → List ℕ
range_from k zero = []
range_from k (suc n) = k ∷ range_from (suc k) n

-- `self.parent[i]`
unfoldable pub parent : Components → ℕ → Option ℕ
parent [] i = none
parent (x ∷ c) zero = some x
parent (x ∷ c) (suc i) = parent c i

-- One test of the loop, where `go` is the rest of the loop.
abbrev pub climb : (ℕ → Option ℕ) → ℕ → Option ℕ → Option ℕ
climb go i none = none
climb go i (some j) = if j == i then some i else go j

unfoldable pub find : ℕ → Components → ℕ → Option ℕ
find zero c i = none
find (suc fuel) c i = climb (find fuel c) i (parent c i)

abbrev pub link : Components → ℕ → ℕ → Components
link c ra rb = if ra == rb then c else set c rb ra

unfoldable pub union : ℕ → Components → MarketId → MarketId → Option Components
union fuel c a b =
    and_then (find fuel c a) (λ ra. and_then (find fuel c b) (λ rb. some (link c ra rb)))

-- A loop of unions.
unfoldable pub unions : ℕ → Components → List (MarketId × MarketId) → Option Components
unions fuel c [] = some c
unions fuel c ((a, b) ∷ es) = and_then (union fuel c a b) (λ d. unions fuel d es)

-- `markets.windows(2)`
unfoldable pub windows : List MarketId → List (MarketId × MarketId)
windows [] = []
windows (a ∷ []) = []
windows (a ∷ b ∷ ms) = (a, b) ∷ windows (b ∷ ms)

unfoldable pub partition_pairs : List Partition → List (MarketId × MarketId)
partition_pairs [] = []
partition_pairs (p ∷ ps) = windows p.markets ++ partition_pairs ps

abbrev pub ends : Relationship → MarketId × MarketId
ends (Relationship.implies a b) = (a, b)
ends (Relationship.mutually_exclusive a b) = (a, b)
ends (Relationship.equivalent a b) = (a, b)

unfoldable pub relationship_pairs : List Relationship → List (MarketId × MarketId)
relationship_pairs [] = []
relationship_pairs (r ∷ rs) = ends r ∷ relationship_pairs rs

-- The loop over the partitions, and then that over the relationships.
unfoldable pub build : ℕ → ℕ → List Partition → List Relationship → Option Components
build fuel n_markets ps rs =
    and_then (unions fuel (range_from 0 n_markets) (partition_pairs ps))
      (λ c. unions fuel c (relationship_pairs rs))

abbrev pub component_of : ℕ → Components → MarketId → Option ComponentId
component_of fuel c m = find fuel c m

unfoldable pub is_member :
    ComponentId → Option ℕ → Option (List MarketId) → ℕ → Option (List MarketId)
is_member c r rest i =
    and_then r (λ j. if j == c then and_then rest (λ ms. some (i ∷ ms)) else rest)

unfoldable pub members_in : ℕ → Components → ComponentId → List ℕ → Option (List MarketId)
members_in fuel p c [] = some []
members_in fuel p c (i ∷ is) = is_member c (find fuel p i) (members_in fuel p c is) i

abbrev pub members : ℕ → Components → ComponentId → Option (List MarketId)
members fuel p c = members_in fuel p c (range_from 0 (length p))
