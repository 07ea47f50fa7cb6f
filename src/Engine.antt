-- ===== src/Engine.antt =====
-- crates/engine/src/lib.rs: the data of the detection engine.
pub mod Walker
pub mod Classes
pub mod Dedup
mod Tests
use polybot.Common.{ℕ, Bool, List, Option, none, some, ◌∷◌, [], ◌==◌, if◌then◌else◌}
use polybot.Common.Int.{pos}
use polybot.Num.{TickSize, Px, Qty, Usdc, Bps}
use polybot.Instrument.{MarketId, TokenId, Market}

pub data ArbClass : Type 0 where
  c1_long c1_short c2_long c2_short c3_implies c3_mut_ex c3_equiv c4_lp : ArbClass

pub data Action : Type 0 where
  buy sell : Action

pub record LegFill : Type 0 where
  pub token : TokenId
  pub action : Action
  pub ts : TickSize
  pub limit_px : Px
  pub qty : Qty
  pub cash : Usdc

pub record Opportunity : Type 0 where
  pub class : ArbClass
  pub fills : List LegFill
  pub units : Qty
  pub net : Usdc
  pub basis : Usdc
  pub edge : Bps
  pub splits : List (MarketId × Qty)

pub record GasTable : Type 0 where
  pub split : ℕ
  pub merge : ℕ
  pub redeem : ℕ
  pub negrisk_convert : ℕ

pub data RedeemStrategy : Type 0 where
  merge_now hold : RedeemStrategy

pub record EngineParams : Type 0 where
  pub floor_c12 : Bps
  pub floor_c3 : Bps
  pub min_profit : Usdc
  pub gas : GasTable
  pub redeem : RedeemStrategy
  pub max_basis : Usdc
  pub max_worlds : ℕ
  pub cooldown_ms : ℕ
  pub reemit_improvement_pct : ℕ

-- `EngineParams::default`
abbrev pub default_params : EngineParams
default_params = record {
  floor_c12 = pos 30;
  floor_c3 = pos 100;
  min_profit = pos 1000000;
  gas = record { split = 10000; merge = 10000; redeem = 15000; negrisk_convert = 20000 };
  redeem = RedeemStrategy.merge_now;
  max_basis = pos 1000000000;
  max_worlds = 4096;
  cooldown_ms = 2000;
  reemit_improvement_pct = 20;
}

unfoldable pub find_market : List Market → MarketId → Option Market
find_market [] id = none
find_market (m ∷ ms) id = if m.id == id then some m else find_market ms id
