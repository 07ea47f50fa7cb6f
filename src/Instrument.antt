-- ===== src/Instrument.antt =====
-- crates/core/src/instrument.rs: the handles of markets and tokens, partitions and relationships.
use polybot.Common.{ℕ, Bool, List, ◌&&◌, leb, ◌==◌, length}
use polybot.Num.{TickSize, Bps}

abbrev pub TokenId : Type 0
TokenId = ℕ

abbrev pub MarketId : Type 0
MarketId = ℕ

abbrev pub EventId : Type 0
EventId = ℕ

pub record Market : Type 0 where
  pub id : MarketId
  pub yes_token : TokenId
  pub no_token : TokenId
  pub tick : TickSize
  pub fee_bps : Bps
  pub neg_risk : Bool

pub record Partition : Type 0 where
  pub event : EventId
  pub markets : List MarketId
  pub yes_tokens : List TokenId
  pub no_tokens : List TokenId
  pub verified_exhaustive : Bool
  pub neg_risk : Bool

unfoldable pub is_well_formed : Partition → Bool
is_well_formed p =
    let n = length p.markets in leb 2 n && length p.yes_tokens == n && length p.no_tokens == n

pub data Relationship : Type 0 where
  implies : MarketId → MarketId → Relationship
  mutually_exclusive : MarketId → MarketId → Relationship
  equivalent : MarketId → MarketId → Relationship
