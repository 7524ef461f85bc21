-- ===== src/Lib.antt =====
-- Verification of LUV Flicker: the market-data path from the bytes of a NASDAQ feed to the limit order
-- book, the execution path from an order intent to the packet and the reports of the venue, and the
-- self-trade, replication, market-by-order, auction, dark pool, contingent order, price
-- band, pegging, sharding, block pool and recovery components beside them.
--
-- The parts and how they interact. A MoldUDP64 packet (luv_moldudp64.hpp) holds ITCH messages. The
-- decoder (luv_decode_itch.hpp) turns one message into a `TickMsg`, with its symbol table for the
-- messages that name a ticker. The book engine (luv_lob.hpp) takes the tick: it finds the order in
-- the `OrderRefMap`, an open-addressing table from order references to places in the book, and
-- changes the price level and the order slot in the slab of the arena (luv_arena.hpp). Prices and
-- quantities are bounded by luv_numeric_limits.hpp.
--
-- On the execution path the gateway (luv_execution.hpp) asks the circuit breaker and the rate limiter
-- (luv_safety.hpp), runs the pre-trade risk check over the risk state of the symbol (luv_arena.hpp),
-- builds an OUCH packet, registers the order in the reconciliation ledger and takes an order slot; an
-- order that a log refuses is taken back. The reports of the venue change slot, ledger, risk state
-- and breaker, and the table of stop orders sends orders of its own. The log of luv_recovery.hpp is one
-- of the logs that the gateway asks, and luv_ouch.hpp turns the bytes of the venue into the reports.
-- luv_stp.hpp, luv_raft_sync.hpp, luv_mbo.hpp, luv_auction.hpp, luv_contingent_orders.hpp,
-- luv_dark_pool.hpp, luv_luld.hpp, luv_order_peg.hpp, luv_sharding.hpp and luv_mempool.hpp
-- stand apart from these paths.
--
-- Which file models what:
--   Base             library names, integers over the native numbers, list lemmas, memory updates
--   Numeric          luv_numeric_limits.hpp; Numeric/Bounds has its theorems
--   Arena            luv_arena.hpp: OrderSlot, PriceLevel, TickMsg, the slab index, alignment;
--                    Arena/Orders the active orders and the risk state, Arena/Config is
--                    Config, Arena/Ring is SPSCRing and Arena/Ring/Refine its theorems
--   RefMap           luv_lob.hpp, OrderRefMap: init, clear, insert, can_insert, lookup, remove,
--                    fixup_levels; RefMap/Probe, Laws, Insert and Remove have its theorems
--   Lob              luv_lob.hpp, LOBEngine: Lob/State is the state with init and teardown, Lob/Slots
--                    the slot lists, Lob/Levels the levels of a side, Lob/Orders what the handlers
--                    share, Lob/Handlers the message handlers and process_unlocked, Lob/Queries the
--                    queries; Lob/Levels/Search, Lob/Ladder and Lob/Refusals have the theorems
--   Itch             luv_decode_itch.hpp: Itch/Bytes the big-endian reads, Itch/Symbols SymbolTable,
--                    Itch/Decode decode_itch; Itch/Locality and Itch/Agreement have the theorems
--   Mold             luv_moldudp64.hpp; Mold/Block and Mold/Request have its theorems
--   Stp              luv_stp.hpp; Stp/Resolution and Stp/Trips have its
--                    theorems, Stp/Window what the second is about
--   Raft             luv_raft_sync.hpp; Raft/Replication has its theorems
--   Mbo              luv_mbo.hpp; Mbo/Count and Mbo/Priority have its theorems
--   Safety           luv_safety.hpp: Safety/Limiter is OrderRateLimiter, Safety/Sequence is
--                    SequenceTracker, Safety/Breaker is CircuitBreaker, Safety/Ledger is
--                    ReconciliationLedger, Safety/Audit the hash chain of DurableAuditLog; their
--                    children Gaps, Recovery, Clusters and Chain have the theorems
--   Exec             luv_execution.hpp: Exec/Types the limits and intents, Exec/Risk is PreTradeRisk,
--                    Exec/Ouch is OuchPacketTemplates, Exec/Slots the order slots of a symbol,
--                    Exec/Gateway and Exec/Reports are ExecutionGateway, Exec/Triggers is
--                    StopOrderTable; Exec/Risk/Limits, Exec/Ouch/Fields, Exec/Slots/Held
--                    and Settled, Exec/Gateway/Admission and Outcome, Exec/Reports/Books and Fills, and
--                    Exec/Triggers/Sending have the theorems
--   Auction          luv_auction.hpp; Auction/Levels and Auction/Price have its theorems
--   Recovery         luv_recovery.hpp, RecoveryLedger; Recovery/Replay has its theorems
--   Contingent       luv_contingent_orders.hpp; Contingent/Trailing and Contingent/Pairs have its
--                    theorems
--   DarkPool         luv_dark_pool.hpp; DarkPool/Orders has the lemmas on the resting orders,
--                    DarkPool/Order those on the comparison, DarkPool/Loop, Fills, Priority, Valid and
--                    History the theorems
--   OuchFeed         luv_ouch.hpp, Parser and OrderFlowAdapter; OuchFeed/Frames, Local and Flow have
--                    its theorems
--   Luld             luv_luld.hpp; Luld/Bands and Luld/Pause have its theorems, Luld/Quotes
--                    and Luld/Told what the second is about
--   Peg              luv_order_peg.hpp; Peg/Price has its theorems
--   Sharding         luv_sharding.hpp; Sharding/Queue and Sharding/Shards have its theorems
--   Mempool          luv_mempool.hpp; Mempool/Free and Mempool/Uses have its theorems
--   Exec/Fixture     a gateway with one open order, for the runs
--   */Tests          concrete runs
--
-- How state and operations correspond. A class is a record of its fields, a method a function from
-- the record to the new record, with what it returns beside it. An array is a function from indices
-- or, where it is short or searched whole, a list. A pointer that may be null is an `Option`, and the
-- index -1 is `none`. An out-parameter is a result. Unsigned counters keep their wrap-around where a
-- theorem or a guard depends on it; prices and quantities are integers, and the int64_t range is
-- written out in checked_add, in PreTradeRisk::evaluate and in the sums of MarketMakerProtection.
--
-- Bounds and fuel. The probe loops of OrderRefMap take kMaxProbeLength as fuel, the bound of the
-- loops themselves. The binary search of find_level takes the number of levels, which is enough since
-- each step shortens the range. The tail walk of link_slot takes the number of slots. The walk of
-- SymbolTable takes its capacity, and the table is at most half full. message_count is the fuel of
-- validate_message_block, as in its loop. The probe loops of ReconciliationLedger and the loop of
-- reinsert_cluster take its capacity, since no run of entries is longer than the table, and
-- query_order and cancel_order take the number of symbols. The loop of be64 in luv_ouch.hpp takes
-- its eight rounds.
--
-- Where the outside has a say, its answer is an argument: whether the logs accept an entry, whether the
-- subscriber takes a fill, in what order std::sort of the dark pool puts equal candidates, what the
-- clocks read, whether a write or a sync succeeds, how many bytes of an audit
-- event a failed write leaves behind, and the digest of the audit log. A file of the audit log is what its whole records
-- read as and the bytes behind them; what stands behind a failed write is counted, not read. A loop over an atomic counter is one step, and so is a call of the rings, the dispatcher and
-- the block pool. Positions and exposures are integers, and
-- the range of int64_t stands where the code tests for overflow.
--
-- What is not modelled: logging, locks, memory mapping (whether mmap succeeds is an argument), the
-- floating-point parts (features, pricing, occupancy ratios), sockets, threads and files, and the
-- components outside the files above.
pub mod Base
pub mod Numeric
pub mod Arena
pub mod RefMap
pub mod Lob
pub mod Itch
pub mod Mold
pub mod Stp
pub mod Raft
pub mod Mbo
pub mod Safety
pub mod Exec
pub mod Auction
pub mod Contingent
pub mod DarkPool
pub mod OuchFeed
pub mod Luld
pub mod Peg
pub mod Sharding
pub mod Mempool
pub mod Recovery
