-- ===== src/Lib.antt =====
-- Verification of polybot, an arbitrage and market-making bot for prediction markets.
--
-- The feed of a market (crates/ingestion) fills one order book for each token (crates/core); the
-- detectors (crates/engine) size opportunities against those books in exact integer arithmetic
-- (crates/core), and the risk engine (crates/risk) admits a basket, reserves it and halts the
-- session.
--
--   Num       crates/core/src/num.rs, fees.rs: `px_new` is `Px::new`, `buy_cost`, `sell_proceeds`,
--             `edge_bps` and `fee_microusdc` keep their names.
--   Book      crates/core/src/book.rs: `ladder_set` is `Ladder::set`, `iter_next` is
--             `LadderIter::next`, `apply` is `Book::apply`.
--   LiveBook  crates/ingestion/src/livebook.rs, function by function; `feed` runs a list of events.
--   Shard     crates/ingestion/src/shard.rs, method by method; `token_is_stale` is `Shard::is_stale`, and
--             `shard_run` runs a list of events.
--   Decimal   crates/ingestion/src/decimal.rs: `parse_micro` over the bytes of a string.
--   Risk      crates/risk/src/lib.rs, method by method; a method returns the new engine.
--   Inventory crates/risk/src/inventory.rs: `fill_token` is the body of `on_fill`, `put` a write of
--             the map of tokens.
--   Instrument crates/core/src/instrument.rs: handles, markets, partitions, relationships.
--   Engine    crates/engine/src/lib.rs, walker.rs, class1.rs, class2.rs, class3.rs, dedup.rs: `walk`
--             in rounds (`walk_loop`), its accounting (`account`), and the detectors `class1_detect` to
--             `class3_detect`, then `fingerprint` and `admit`.
--   Lots      crates/store/src/lots.rs: `drain` is the loop of `consume_lots` and of
--             `consume_open_side`; the table is a list of rows.
--   Coordinator crates/app/src/coordinator.rs (`basket_check`) and positions.rs (`apply_report` is
--             `PositionBook::apply`).
--   Makers    crates/execution/src/maker.rs, quote_manager.rs, reconcile.rs, paper_maker.rs and the fill
--             of fills.rs: `reconcile` and `cancel_all` are the methods of `QuoteManager` over any
--             `MakerVenue`, whose instance `paper` has `paper_place`, `paper_cancel` and `poll` for the
--             methods of `PaperMakerVenue`. Refines is about the two together.
--   Exec      crates/execution/src/lib.rs, venue.rs and the order lifecycle and ledger of basket.rs:
--             `fill_now` is that of `PaperVenue`, `close_order` and `open_order` run in a state that
--             holds the store, the order, the ledger and the count of errors; `repair_leg` is the pricing
--             in `repair_and_unwind`.
--   Registry  crates/registry/src/components.rs: `find` is the loop of `Components::find`, `unions` the
--             two loops of `Components::build`, over the pairs that they unite.
--   Common    names that the other files share.
--
-- Newtypes over integers are their numbers: `Px`, `Qty` over the natural numbers, `Usdc` and `Bps`
-- over the integers. An `i128` is unbounded here; where the source narrows a number (`as u16`,
-- `clamp` to `i32`, checked `u64` arithmetic) the narrowing is written out. An `Instant` is a number
-- of milliseconds. A hash map is an association list.
--
-- Bounds: the loop of `LadderIter::next` takes fuel, one step for each level of the ladder, and
-- `collect` one call for each level; that this is enough is part of the result on `collect`. The
-- loop of `walk` takes one round for each micro-share that the first leg offers, and one more, since
-- every round takes one at least. A search of a component takes one step for each union made before,
-- and one more.
--
-- The store's writer and the books that a venue reads are parameters, arbitrary in every result but where
-- a result says otherwise.
--
-- Not modelled: sockets, JSON, the database, signatures, the terminal, and the floating-point
-- policies of the strategies.
pub mod Common
pub mod Num
pub mod Instrument
pub mod Book
pub mod LiveBook
pub mod Decimal
pub mod Engine
pub mod Risk
pub mod Inventory
pub mod Coordinator
pub mod Lots
pub mod Makers
pub mod Shard
pub mod Exec
pub mod Registry
