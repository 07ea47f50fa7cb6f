-- ===== src/Engine/Classes.antt =====
-- crates/engine/src/class1.rs, class2.rs and class3.rs: the detectors over the walker. The hash maps
-- are association lists; of a list collected into a map the last entry of a key counts.
pub mod Riskless
pub mod Worlds
pub mod Partitions
pub mod Relations
use polybot.Common.{
  ℕ, ◌+◌, ◌-◌, ◌*◌, Bool, not, ◌||◌, Option, none, some, List, [], ◌∷◌, ◌++◌, and_then, ◌==◌,
  if◌then◌else◌, length,
}
use polybot.Num.{Bps}
use polybot.Book.{Ladder, Book}
use polybot.Instrument.{TokenId, MarketId, Market, Partition, Relationship, is_well_formed}
use polybot.Engine.{Action, ArbClass, Opportunity, EngineParams, RedeemStrategy, find_market}
use polybot.Engine.Walker.{LegSpec, BasketSpec, WalkResult, into_opportunity, walk}

abbrev pub leg_spec : TokenId → Action → Ladder → Bps → LegSpec
leg_spec token action ladder fee_bps = record {
  token = token;
  action = action;
  ladder = ladder;
  fee_bps = fee_bps;
}

-- `if let Some(w) = … { out.push(w.into_opportunity(class)) }`
abbrev pub emit : ArbClass → Option WalkResult → List Opportunity
emit class none = []
emit class (some w) = into_opportunity w class ∷ []

-- The splits that execution must make before the sells.
abbrev pub emit_split : MarketId → Option WalkResult → List Opportunity
emit_split m none = []
emit_split m (some w) =
    record (into_opportunity w ArbClass.c1_short) { splits = (m, w.units) ∷ [] } ∷ []

abbrev pub long_gas : EngineParams → ℕ
long_gas p = elim p.redeem [
  | RedeemStrategy.merge_now ↦ p.gas.merge
  | RedeemStrategy.hold ↦ p.gas.redeem
]

abbrev pub class1_long : Market → Book → Book → EngineParams → BasketSpec
class1_long m yes_book no_book p = record {
  legs =
      leg_spec m.yes_token Action.buy yes_book.asks m.fee_bps
      ∷ leg_spec m.no_token Action.buy no_book.asks m.fee_bps
      ∷ [];
  payout_per_share = 1000000;
  collateral_per_share = 0;
  gas = long_gas p;
}

abbrev pub class1_short : Market → Book → Book → EngineParams → BasketSpec
class1_short m yes_book no_book p = record {
  legs =
      leg_spec m.yes_token Action.sell yes_book.bids m.fee_bps
      ∷ leg_spec m.no_token Action.sell no_book.bids m.fee_bps
      ∷ [];
  payout_per_share = 0;
  collateral_per_share = 1000000;
  gas = p.gas.split;
}

-- `class1::detect`
unfoldable pub class1_detect : Market → Book → Book → EngineParams → List Opportunity
class1_detect m yes_book no_book p =
    emit ArbClass.c1_long
      (walk (class1_long m yes_book no_book p) p.max_basis p.min_profit p.floor_c12)
    ++ emit_split m.id
        (walk (class1_short m yes_book no_book p) p.max_basis p.min_profit p.floor_c12)

unfoldable pub book_of : List (TokenId × Book) → TokenId → Option Book
book_of [] t = none
book_of ((k, b) ∷ bs) t = if k == t then some b else book_of bs t

abbrev pub or_else {ℓ} : {A : Type ℓ} → Option A → Option A → Option A
or_else (some a) d = some a
or_else none d = d

-- A lookup in `fee_map`, in which a later market overwrites an earlier one.
unfoldable pub fee_of : List Market → TokenId → Option Bps
fee_of [] t = none
fee_of (m ∷ ms) t =
    or_else (fee_of ms t) (
      if m.no_token == t then some m.fee_bps else if m.yes_token == t then some m.fee_bps else none)

-- The closure `build` of `class2::detect`.
unfoldable pub build : List Market → List (TokenId × Book) → List TokenId → Option (List LegSpec)
build markets books [] = some []
build markets books (t ∷ ts) =
    let rest = build markets books ts in
    and_then (book_of books t) λ b.
      and_then (fee_of markets t)
        λ fee. and_then rest λ legs. some (leg_spec t Action.buy b.asks fee ∷ legs)

-- A basket of buys that is paid out `payout` for each share.
abbrev pub buy_basket : List LegSpec → ℕ → ℕ → BasketSpec
buy_basket legs payout gas = record {
  legs = legs;
  payout_per_share = payout;
  collateral_per_share = 0;
  gas = gas;
}

abbrev pub walk_built : ArbClass → Option (List LegSpec) → ℕ → ℕ → EngineParams → List Opportunity
walk_built class none payout gas p = []
walk_built class (some legs) payout gas p =
    emit class (walk (buy_basket legs payout gas) p.max_basis p.min_profit p.floor_c12)

-- `class2::detect`
unfoldable pub class2_detect :
    Partition → List Market → List (TokenId × Book) → EngineParams → List Opportunity
class2_detect part markets books p =
    let n = length part.yes_tokens in
    if not part.verified_exhaustive || not (is_well_formed part)
    then []
    else walk_built ArbClass.c2_long (build markets books part.yes_tokens) 1000000 p.gas.redeem p
      ++ walk_built ArbClass.c2_short (build markets books part.no_tokens) ((n - 1) * 1000000)
          p.gas.negrisk_convert p

unfoldable pub pair_basket : ArbClass → LegSpec → LegSpec → EngineParams → List Opportunity
pair_basket class first second p = emit class (
    walk (buy_basket (first ∷ second ∷ []) 1000000 p.gas.redeem) p.max_basis p.min_profit
      p.floor_c3)

-- The closure `leg` of `class3::detect`.
abbrev pub leg_of : List (TokenId × Book) → TokenId → Market → Option LegSpec
leg_of books token m =
    and_then (book_of books token) λ b. some (leg_spec token Action.buy b.asks m.fee_bps)

abbrev pub pair_of : ArbClass → Option LegSpec → Option LegSpec → EngineParams → List Opportunity
pair_of class (some first) (some second) p = pair_basket class first second p
pair_of class (some first) none p = []
pair_of class none second p = []

abbrev pub class3_pairs :
    Relationship → Market → Market → List (TokenId × Book) → EngineParams → List Opportunity
class3_pairs (Relationship.implies a b) ma mb books p =
    pair_of ArbClass.c3_implies (leg_of books ma.no_token ma) (leg_of books mb.yes_token mb) p
class3_pairs (Relationship.mutually_exclusive a b) ma mb books p =
    pair_of ArbClass.c3_mut_ex (leg_of books ma.no_token ma) (leg_of books mb.no_token mb) p
class3_pairs (Relationship.equivalent a b) ma mb books p =
    pair_of ArbClass.c3_equiv (leg_of books ma.no_token ma) (leg_of books mb.yes_token mb) p
    ++ pair_of ArbClass.c3_equiv (leg_of books mb.no_token mb) (leg_of books ma.yes_token ma) p

abbrev pub first_of_rel : Relationship → MarketId
first_of_rel (Relationship.implies a b) = a
first_of_rel (Relationship.mutually_exclusive a b) = a
first_of_rel (Relationship.equivalent a b) = a

abbrev pub second_of_rel : Relationship → MarketId
second_of_rel (Relationship.implies a b) = b
second_of_rel (Relationship.mutually_exclusive a b) = b
second_of_rel (Relationship.equivalent a b) = b

abbrev pub with_markets :
    Relationship
    → Option Market
    → Option Market
    → List (TokenId × Book)
    → EngineParams
    → List Opportunity
with_markets rel (some ma) (some mb) books p = class3_pairs rel ma mb books p
with_markets rel (some ma) none books p = []
with_markets rel none mb books p = []

-- `class3::detect`
unfoldable pub class3_detect :
    Relationship → List Market → List (TokenId × Book) → EngineParams → List Opportunity
class3_detect rel markets books p =
    with_markets rel (find_market markets (first_of_rel rel))
      (find_market markets (second_of_rel rel)) books p
