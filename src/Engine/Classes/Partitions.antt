-- ===== src/Engine/Classes/Partitions.antt =====
-- What the opportunities of a partition make in the worlds in which it resolves.
use polybot.Common.{
  ℕ, ◌+◌, ◌-◌, ◌*◌, ◌≤◌, ◌≡◌, refl, sym, ap, ◌∙◌, Bool, true, false, not, Option, none, some, List,
  [], ◌∷◌, arith, if◌then◌else◌, length, and_then, eq_of_some,
}
use polybot.Num.{Bps}
use polybot.Book.{Book}
use polybot.Instrument.{TokenId, Market, Partition}
use polybot.Engine.{Action, ArbClass, EngineParams}
use polybot.Engine.Walker.{LegSpec}
use polybot.Engine.Classes.{build, walk_built, book_of, fee_of, buy_basket, class2_detect, leg_spec}
use polybot.Engine.Classes.Riskless.{World, winning}
use polybot.Engine.Classes.Worlds.{All, All-append, IsRiskless, gas_of, emit-IsRiskless}

-- How many of the tokens win.
abbrev pub wins : World → List TokenId → ℕ
wins win [] = 0
wins win (t ∷ ts) = (if win t then 1 else 0) + wins win ts

-- Each of the second tokens wins exactly where the first one beside it does not.
abbrev pub Opposed : World → List TokenId → List TokenId → Type 0
Opposed win [] [] = Unit {0}
Opposed win [] (n ∷ ns) = ⊥
Opposed win (y ∷ ys) [] = ⊥
Opposed win (y ∷ ys) (n ∷ ns) = (win n ≡ not (win y)) × Opposed win ys ns

one_each : (a b : Bool) → b ≡ not a → (if a then 1 else 0) + (if b then 1 else 0) ≡ 1
one_each a b h = ground arith

wins_add :
    (win : World) (ys ns : List TokenId) → Opposed win ys ns → wins win ys + wins win ns ≡ length ys
wins_add win [] [] h = omega arith
wins_add win [] (n ∷ ns) h = absurd h
wins_add win (y ∷ ys) [] h = absurd h
wins_add win (y ∷ ys) (n ∷ ns) (h, hs) =
    omega (arith, one_each (win y) (win n) h, wins_add win ys ns hs)

-- The basket built for some tokens has their wins.
build-winning :
    (win : World) (ms : List Market) (books : List (TokenId × Book)) (ts : List TokenId)
    (legs : List LegSpec)
    → build ms books ts ≡ some legs
    → winning win legs ≡ wins win ts
unfolding build
build-winning win ms books [] legs e = ap (winning win) (sym (eq_of_some e))
build-winning win ms books (t ∷ ts) legs e =
    with_book (book_of books t) (fee_of ms t) (build ms books ts)
      (λ ls k. build-winning win ms books ts ls k) e
  where
    with_book :
        (b : Option Book) (f : Option Bps) (rest : Option (List LegSpec))
        → ((ls : List LegSpec) → rest ≡ some ls → winning win ls ≡ wins win ts)
        → and_then b (λ b.
          and_then f λ fee. and_then rest λ ls. some (leg_spec t Action.buy b.asks fee ∷ ls))
          ≡ some legs
        → winning win legs ≡ wins win (t ∷ ts)
    with_book none f rest k e = cc
    with_book (some b) none rest k e = cc
    with_book (some b) (some f) none k e = cc
    with_book (some b) (some f) (some ls) k e =
        ap (winning win) (sym (eq_of_some e)) ∙ ap (λ n. (if win t then 1 else 0) + n) (k ls refl)

walk_built-IsRiskless :
    (win : World) (p : EngineParams) (class : ArbClass) (ts : List TokenId) (ms : List Market)
    (books : List (TokenId × Book)) (k payout gas : ℕ) (o : Option (List LegSpec))
    → build ms books ts ≡ o
    → payout ≡ k * 1000000
    → gas ≡ gas_of p class
    → k ≤ wins win ts
    → All (IsRiskless win p) (walk_built class o payout gas p)
walk_built-IsRiskless win p class ts ms books k payout gas none e pays g h = tt
walk_built-IsRiskless win p class ts ms books k payout gas (some legs) e pays g h =
    emit-IsRiskless win p (buy_basket legs payout gas) class k p.floor_c12 _ refl pays refl g
      (omega (arith, h, build-winning win ms books ts legs e))

guarded :
    {A : Type 0} (P : A → Type 0) (b : Bool) (xs : List A) → All P xs → All P (if b then [] else xs)
guarded P true xs h = tt
guarded P false xs h = h

-- Where exactly one yes token of the partition wins and each no token is the opposite of its yes
-- token, every opportunity of `class2_detect` leaves at least the minimum profit.
pub class2_detect-IsRiskless :
    (win : World) (part : Partition) (markets : List Market) (books : List (TokenId × Book))
    (p : EngineParams)
    → wins win part.yes_tokens ≡ 1
    → Opposed win part.yes_tokens part.no_tokens
    → All (IsRiskless win p) (class2_detect part markets books p)
unfolding class2_detect
class2_detect-IsRiskless win part markets books p one opp = guarded (IsRiskless win p) _ _ (
    All-append (IsRiskless win p) _ _
      (walk_built-IsRiskless win p ArbClass.c2_long part.yes_tokens markets books 1 1000000
        p.gas.redeem _ refl (omega arith) refl (omega arith))
      (walk_built-IsRiskless win p ArbClass.c2_short part.no_tokens markets books
        (length part.yes_tokens - 1) _ p.gas.negrisk_convert _ refl refl refl
        (omega (arith, wins_add win part.yes_tokens part.no_tokens opp))))
