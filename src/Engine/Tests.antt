-- ===== src/Engine/Tests.antt =====
-- A binary market, a partition of two outcomes and a relationship, sized at concrete books.
use polybot.Common.{
  lookup, ℕ, ◌≡◌, ◌↔◌, refl, arith, Bool, true, false, some, List, [], ◌∷◌, ◌==◌, if◌then◌else◌,
}
use polybot.Common.Int.{pos, negsuc, div_floor, ◌+ℤ◌, ◌-ℤ◌, ◌*ℤ◌}
use polybot.Num.{
  TickSize, levels, unit_microusdc, px_new, microusdc, buy_cost, sell_proceeds, edge_bps, clamp_i32,
  fee_microusdc, div_ceil,
}
use polybot.Book.{
  Side, Book, book_new, apply, ladder_new, ladder_set, rescan_from, find_down, find_up,
  iter_from_best, item_at, advance, next_loop, iter_next, collect,
}
use polybot.Instrument.{TokenId, MarketId, Market, Partition, Relationship}
use polybot.Engine.Dedup.{Cooldown, admit, fingerprint}
use polybot.Engine.Dedup.Repeats.{Exceeds, admit_repeat}
use polybot.Engine.{ArbClass, Opportunity, Action, default_params}
use polybot.Engine.Walker.{
  into_opportunity, BasketSpec, WalkResult, WalkState, walk, walk_loop, walk_within, start,
  state_round, rounds, open_cursor, next_level, ladder_levels, probe_all, probe, round_start,
  scaled_leg_cost, basis_cap, capped_chunk, round_chunk, take_all, take_from, push_seg, take_chunk,
  finish, settle, account, account_segs, account_seg,
}
use polybot.Engine.Walker.Loop.{after_round}
use polybot.Engine.Walker.Fills.{WalkInv}
use polybot.Engine.Walker.Reached.{RoundsTo, IsLast, RoundsTo-WalkInv}
use polybot.Engine.Walker.Result.{IsSized, walk-IsSized, walk_within-walk}
use polybot.Engine.Classes.{class1_long, class1_detect, class2_detect, class3_detect}
use polybot.Engine.Classes.Worlds.{All, IsRiskless, class1_detect-IsRiskless}
use polybot.Engine.Classes.Partitions.{class2_detect-IsRiskless}
use polybot.Engine.Classes.Relations.{holds, class3_detect-IsRiskless}

abbrev market : Market
market = record {
  id = 1;
  yes_token = 10;
  no_token = 11;
  tick = TickSize.cent;
  fee_bps = pos 0;
  neg_risk = false;
}

abbrev other : Market
other = record {
  id = 2;
  yes_token = 20;
  no_token = 21;
  tick = TickSize.cent;
  fee_bps = pos 0;
  neg_risk = false;
}

abbrev asking : ℕ → Book
asking px = apply (book_new TickSize.cent) Side.ask px 100000000

abbrev books : List (TokenId × Book)
books = (10, asking 40) ∷ (11, asking 45) ∷ (20, asking 45) ∷ (21, asking 40) ∷ []

abbrev basket : BasketSpec
basket = class1_long market (asking 40) (asking 45) default_params

-- One hundred shares of each token at 40 and 45 cents.
abbrev sized : WalkResult
sized = record {
  units = 100000000;
  net = pos 14990000;
  basis = pos 85000000;
  edge = pos 1763;
  fills =
      record {
        token = 10;
        action = Action.buy;
        ts = TickSize.cent;
        limit_px = 40;
        qty = 100000000;
        cash = negsuc 39999999;
      }
      ∷ record {
        token = 11;
        action = Action.buy;
        ts = TickSize.cent;
        limit_px = 45;
        qty = 100000000;
        cash = negsuc 44999999;
      }
      ∷ [];
}

market_walk : walk basket (pos 1000000000) (pos 1000000) (pos 30) ≡ some sized
unfolding walk walk_within walk_loop start open_cursor next_level ladder_levels probe_all probe
    round_start scaled_leg_cost basis_cap capped_chunk round_chunk take_all take_from push_seg
    take_chunk finish settle account account_segs account_seg apply book_new ladder_new ladder_set
    rescan_from find_down find_up iter_from_best item_at advance next_loop iter_next collect levels
    unit_microusdc px_new microusdc buy_cost sell_proceeds edge_bps clamp_i32 fee_microusdc div_ceil
    div_floor ◌+ℤ◌ ◌-ℤ◌ ◌*ℤ◌
market_walk = refl

-- The first tokens of both markets win.
abbrev world : TokenId → Bool
world t = if t == 10 then true else t == 20

abbrev one_wins : TokenId → Bool
one_wins t = if t == 10 then true else t == 21

abbrev truth : MarketId → Bool
truth m = true

abbrev event : Partition
event = record {
  event = 7;
  markets = 1 ∷ 2 ∷ [];
  yes_tokens = 10 ∷ 20 ∷ [];
  no_tokens = 11 ∷ 21 ∷ [];
  verified_exhaustive = true;
  neg_risk = true;
}

walk-IsSized_example : IsSized basket (pos 1000000) (pos 30) sized
walk-IsSized_example = walk-IsSized basket (pos 1000000000) (pos 1000000) (pos 30) sized market_walk

walk_within-walk_example :
    walk_within 100000002 basket (pos 1000000000) (pos 1000000) (pos 30)
    ≡ some (walk basket (pos 1000000000) (pos 1000000) (pos 30))
unfolding start open_cursor next_level ladder_levels apply book_new ladder_new ladder_set
    rescan_from find_down find_up iter_from_best item_at advance next_loop iter_next collect levels
    px_new
walk_within-walk_example =
    walk_within-walk 100000002 basket (pos 1000000000) (pos 1000000) (pos 30) (omega arith)

-- The first round takes both levels.
first_chunk :
    round_chunk (pos 1000000000) (start basket).basis_used (state_round basket (start basket))
    ≡ some 100000000
unfolding start open_cursor next_level ladder_levels probe_all probe round_start scaled_leg_cost
    basis_cap capped_chunk round_chunk apply book_new ladder_new ladder_set rescan_from find_down
    find_up iter_from_best item_at advance next_loop iter_next collect levels unit_microusdc px_new
    microusdc ◌+ℤ◌ ◌-ℤ◌
first_chunk = refl

abbrev second : WalkState
second = after_round basket (start basket) 100000000

RoundsTo-WalkInv_example :
    WalkInv basket (pos 1000000000) second
    × ((s' : WalkState) × (walk_loop (rounds second.cursors) basket (pos 1000000000) second
          ≡ some s')
        × IsLast basket (pos 1000000000) s'
        × WalkInv basket (pos 1000000000) s')
RoundsTo-WalkInv_example =
    RoundsTo-WalkInv basket (pos 1000000000) second
      (RoundsTo.next 100000000 RoundsTo.here first_chunk)

class1_detect-IsRiskless_example :
    All
      (IsRiskless world default_params)
      (class1_detect market (asking 40) (asking 45) default_params)
class1_detect-IsRiskless_example =
    class1_detect-IsRiskless world market (asking 40) (asking 45) default_params refl

class2_detect-IsRiskless_example :
    All
      (IsRiskless one_wins default_params)
      (class2_detect event (market ∷ other ∷ []) books default_params)
class2_detect-IsRiskless_example =
    class2_detect-IsRiskless one_wins event (market ∷ other ∷ []) books default_params refl
      (refl, (refl, tt))

class3_detect-IsRiskless_example :
    All
      (IsRiskless world default_params)
      (class3_detect (Relationship.implies 1 2) (market ∷ other ∷ []) books default_params)
unfolding holds
class3_detect-IsRiskless_example =
    class3_detect-IsRiskless world truth (Relationship.implies 1 2) (market ∷ other ∷ []) books
      default_params ((refl, refl), ((refl, refl), tt)) refl

abbrev cooldown : Cooldown
cooldown = record { window = 2000; improvement_pct = 20; seen = [] }

abbrev basket_found : Opportunity
basket_found = into_opportunity sized ArbClass.c1_long

first_admitted : (admit cooldown 100 basket_found).1 ≡ true
unfolding admit lookup
first_admitted = refl

-- Larger by a fifth or less: not enough.
admit_repeat_example :
    ((admit (admit cooldown 100 basket_found).0 1500 (record basket_found { net = pos 17988000 })).1
      ≡ true)
    ↔ Exceeds 20 (pos 14990000) (pos 17988000)
unfolding into_opportunity fingerprint
admit_repeat_example =
    admit_repeat cooldown 100 1500 basket_found (record basket_found { net = pos 17988000 })
      first_admitted (omega arith) refl
