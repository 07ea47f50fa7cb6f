-- ===== src/Engine/Classes/Relations.antt =====
-- What the opportunities of a relationship make in the worlds in which it holds.
use polybot.Common.{
  ◌+◌, ◌≤◌, ◌≡◌, refl, sym, ap, ap₂, ◌∙◌, subst, Bool, true, not, Option, none, some, List, [], ◌∷◌,
  arith, if◌then◌else◌, and_then, inl, inr, Bool-cases, ◌||◌, ◌&&◌, ◌==◌, ==_iff,
}
use polybot.Book.{Book}
use polybot.Instrument.{TokenId, MarketId, Market, Relationship}
use polybot.Engine.{Action, ArbClass, EngineParams, find_market}
use polybot.Engine.Walker.{LegSpec}
use polybot.Engine.Classes.{
  book_of, buy_basket, class3_detect, class3_pairs, pair_basket, pair_of, with_markets, leg_of,
  first_of_rel, second_of_rel, leg_spec,
}
use polybot.Engine.Classes.Riskless.{World, wins_one}
use polybot.Engine.Classes.Worlds.{All, All-append, IsRiskless, gas_of, emit-IsRiskless}

-- A property of the value, if there is one.
abbrev OnSome {ℓ} : {A : Type ℓ} → (A → Type 0) → Option A → Type 0
OnSome P none = Unit {0}
OnSome P (some a) = P a

-- The outcome of each market fixes that of its tokens.
abbrev pub Resolves : World → (MarketId → Bool) → Market → Type 0
Resolves win truth m = (win m.yes_token ≡ truth m.id) × (win m.no_token ≡ not (truth m.id))

-- A relationship in a world.
unfoldable pub holds : (MarketId → Bool) → Relationship → Bool
holds truth (Relationship.implies a b) = not (truth a) || truth b
holds truth (Relationship.mutually_exclusive a b) = not (truth a) || not (truth b)
holds truth (Relationship.equivalent a b) = (not (truth a) || truth b) && (not (truth b) || truth a)

find_market-All :
    (P : Market → Type 0) (ms : List Market) (id : MarketId) (o : Option Market)
    → find_market ms id ≡ o
    → All P ms
    → OnSome (λ m. P m × (m.id ≡ id)) o
unfolding find_market
find_market-All P [] id o e h = subst (OnSome _) e tt
find_market-All P (m ∷ ms) id o e h = elim (Bool-cases (m.id == id)) [
  | inl k ↦
      subst (OnSome (λ m. P m × (m.id ≡ id)))
        (sym (ap (λ b. if b then some m else find_market ms id) k) ∙ e) (h.0, (==_iff m.id id).0 k)
  | inr k ↦
      find_market-All P ms id o (sym (ap (λ b. if b then some m else find_market ms id) k) ∙ e) h.1
]

leg_of-winning :
    (win : World) (books : List (TokenId × Book)) (t : TokenId) (m : Market)
    → OnSome (λ l. wins_one win l.action l.token ≡ (if win t then 1 else 0)) (leg_of books t m)
leg_of-winning win books t m = with_book (book_of books t)
  where
    with_book :
        (b : Option Book)
        → OnSome
            (λ l. wins_one win l.action l.token ≡ (if win t then 1 else 0))
            (and_then b λ b. some (leg_spec t Action.buy b.asks m.fee_bps))
    with_book none = tt
    with_book (some b) = refl

either_wins : (a b : Bool) → (a || b) ≡ true → 1 ≤ (if a then 1 else 0) + ((if b then 1 else 0) + 0)
either_wins a b h = ground arith

pair_of-IsRiskless :
    (win : World) (p : EngineParams) (class : ArbClass) (x y : Bool) (a b : Option LegSpec)
    → gas_of p class ≡ p.gas.redeem
    → OnSome (λ l. wins_one win l.action l.token ≡ (if x then 1 else 0)) a
    → OnSome (λ l. wins_one win l.action l.token ≡ (if y then 1 else 0)) b
    → (x || y) ≡ true
    → All (IsRiskless win p) (pair_of class a b p)
unfolding pair_basket
pair_of-IsRiskless win p class x y (some a) (some b) g wa wb h =
    emit-IsRiskless win p (buy_basket (a ∷ b ∷ []) 1000000 p.gas.redeem) class 1 p.floor_c3 _ refl
      (omega arith) refl (sym g) (omega (arith, wa, wb, either_wins x y h))
pair_of-IsRiskless win p class x y (some a) none g wa wb h = tt
pair_of-IsRiskless win p class x y none b g wa wb h = tt

-- What is known of the market found for `id`.
abbrev Found : World → (MarketId → Bool) → MarketId → Market → Type 0
Found win truth id m = Resolves win truth m × (m.id ≡ id)

yes_wins :
    (win : World) (truth : MarketId → Bool) (id : MarketId) (m : Market)
    → Found win truth id m
    → win m.yes_token ≡ truth id
yes_wins win truth id m ((on_yes, on_no), e) = on_yes ∙ ap truth e

no_wins :
    (win : World) (truth : MarketId → Bool) (id : MarketId) (m : Market)
    → Found win truth id m
    → win m.no_token ≡ not (truth id)
no_wins win truth id m ((on_yes, on_no), e) = on_no ∙ ap (λ i. not (truth i)) e

left_of : (a b : Bool) → (a && b) ≡ true → a ≡ true
left_of a b h = ground arith

right_of : (a b : Bool) → (a && b) ≡ true → b ≡ true
right_of a b h = ground arith

class3_pairs-IsRiskless :
    (win : World) (truth : MarketId → Bool) (rel : Relationship) (ma mb : Market)
    (books : List (TokenId × Book)) (p : EngineParams)
    → holds truth rel ≡ true
    → Found win truth (first_of_rel rel) ma
    → Found win truth (second_of_rel rel) mb
    → All (IsRiskless win p) (class3_pairs rel ma mb books p)
unfolding holds
class3_pairs-IsRiskless win truth (Relationship.implies a b) ma mb books p h fa fb =
    pair_of-IsRiskless win p ArbClass.c3_implies _ _ _ _ refl
      (leg_of-winning win books ma.no_token ma) (leg_of-winning win books mb.yes_token mb)
      (ap₂ ◌||◌ (no_wins win truth a ma fa) (yes_wins win truth b mb fb) ∙ h)
class3_pairs-IsRiskless win truth (Relationship.mutually_exclusive a b) ma mb books p h fa fb =
    pair_of-IsRiskless win p ArbClass.c3_mut_ex _ _ _ _ refl
      (leg_of-winning win books ma.no_token ma) (leg_of-winning win books mb.no_token mb)
      (ap₂ ◌||◌ (no_wins win truth a ma fa) (no_wins win truth b mb fb) ∙ h)
class3_pairs-IsRiskless win truth (Relationship.equivalent a b) ma mb books p h fa fb =
    All-append (IsRiskless win p) _ _
      (pair_of-IsRiskless win p ArbClass.c3_equiv _ _ _ _ refl
        (leg_of-winning win books ma.no_token ma) (leg_of-winning win books mb.yes_token mb)
        (ap₂ ◌||◌ (no_wins win truth a ma fa) (yes_wins win truth b mb fb) ∙ left_of _ _ h))
      (pair_of-IsRiskless win p ArbClass.c3_equiv _ _ _ _ refl
        (leg_of-winning win books mb.no_token mb) (leg_of-winning win books ma.yes_token ma)
        (ap₂ ◌||◌ (no_wins win truth b mb fb) (yes_wins win truth a ma fa) ∙ right_of _ _ h))

with_markets-IsRiskless :
    (win : World) (truth : MarketId → Bool) (rel : Relationship) (a b : Option Market)
    (books : List (TokenId × Book)) (p : EngineParams)
    → holds truth rel ≡ true
    → OnSome (Found win truth (first_of_rel rel)) a
    → OnSome (Found win truth (second_of_rel rel)) b
    → All (IsRiskless win p) (with_markets rel a b books p)
with_markets-IsRiskless win truth rel (some a) (some b) books p h fa fb =
    class3_pairs-IsRiskless win truth rel a b books p h fa fb
with_markets-IsRiskless win truth rel (some a) none books p h fa fb = tt
with_markets-IsRiskless win truth rel none b books p h fa fb = tt

-- Where the tokens pay as their markets resolve, and the relationship holds between the outcomes of
-- its markets, every opportunity of `class3_detect` leaves at least the minimum profit.
pub class3_detect-IsRiskless :
    (win : World) (truth : MarketId → Bool) (rel : Relationship) (markets : List Market)
    (books : List (TokenId × Book)) (p : EngineParams)
    → All (Resolves win truth) markets
    → holds truth rel ≡ true
    → All (IsRiskless win p) (class3_detect rel markets books p)
unfolding class3_detect
class3_detect-IsRiskless win truth rel markets books p resolved h =
    with_markets-IsRiskless win truth rel _ _ books p h
      (find_market-All (Resolves win truth) markets (first_of_rel rel) _ refl resolved)
      (find_market-All (Resolves win truth) markets (second_of_rel rel) _ refl resolved)
