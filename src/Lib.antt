-- ===== src/Lib.antt =====
-- Verification of Bell Markets, a market of binary options on Solana.
--
-- The repository has an on-chain program in Rust, a web app that builds the transactions of traders,
-- and an automation service that settles markets and pays rewards. Modelled here is the TypeScript of
-- the last two that decides what is traded and what is paid:
--
-- * the reward tree of services/automation/src/indexer/merkle.ts. Base58.antt is `decodePubkey` (and
--   `bytesToBase58` of helius-webhook.ts); Merkle.antt the sorted-pair tree, its proofs and
--   `verifyLeafProof`; Leaderboard/Leaf.antt `hashLeaf`; Leaderboard.antt `buildLeaderboardMerkleTree`.
--   Bytes.antt has the operations of Node's Buffer that they call. SHA-256 is a parameter of all of
--   these, and what a theorem needs of it is a hypothesis of that theorem.
-- * the tree over the leaves of four metrics of services/automation/src/indexer/merkle-v2.ts:
--   MetricTree.antt, with the layers, proofs and verifier of Merkle.antt, whose code it repeats.
-- * the split of the reward pool in services/automation/src/indexer/distribute-v2.ts, with the tables
--   of distribute.ts and merkle-v2.ts: Distribution.antt, and `runMultiMetricDistribute` itself in
--   Distribution/Run.antt. The reading of the pool's balance, `Math.floor(Number(pool) * 100)` in
--   floating point, is a parameter, as are the upload, the snapshot and the commitment of the root;
--   the rows of distributions, whose insertions are caught, are left out.
-- * the settle events of services/automation/src/indexer/settle-event-handler.ts: Settlement.antt is
--   `handleSettleEvent`, over the row types of services/automation/src/db/types.ts (Database/Types.antt) and
--   the insertions of services/automation/src/db/queries.ts (Database/Queries.antt). A table is the list of its
--   rows, and a function of the service passes the tables on, also when it throws. Which balances the
--   database takes is a field of the tables; it rejects nothing else.
-- * the distribution of a period's pool in services/automation/src/indexer/distribute.ts: Payouts.antt has the
--   tiebreaker and the amounts, Payouts/Period.antt and Payouts/Run.antt `runDistributeForPeriod`, over
--   the two tables of Payouts/Rows.antt. Amounts are in cents.
-- * the strike grid of services/automation/src/ticker-config.ts and strike-calc.ts (Grid.antt), the update of
--   a ticker's configuration and the phases that send it, of services/automation/src/grid-evolution.ts
--   (Grid/Update.antt, Grid/Phases.antt, Grid/WildSwing.antt). Prices are whole numbers of units, and
--   the quotients that are rounded are exact.
-- * the morning job of services/automation/src/jobs/morning.ts, which creates the markets of a day:
--   Morning.antt.
-- * the retry loop of services/automation/src/lib/retry.ts: Retry.antt.
-- * the plan of fills, `planFills` of apps/web/src/lib/solana/order-book.ts: OrderBook.antt; and the view of
--   an account that it plans over, `decodeOrderBook` of the same file: OrderBook/Decode.antt.
-- * the builders of trades in apps/web/src/lib/tx (build-place-order.ts, build-buy-yes.ts,
--   build-buy-no.ts, build-sell-no.ts, build-mint-pair.ts, build-redeem-pair.ts, anchor-helper.ts):
--   Trade.antt and its children, over the plan of fills and the program addresses of Solana.antt
--   (apps/web/src/lib/solana/pdas.ts and anchor.ts).
--   The functions of the Solana packages are the fields of one record, `Solana`, and so is whether
--   Anchor can encode a number as a u64.
-- * the projected mint fee of apps/web/src/lib/fees.ts: Fees.antt.
--
-- Prelude.antt holds what the modules share: tests, lists, results that may be errors, and integers.
-- Code that throws returns a `Result`; a value that the code tests for a sign is an integer, any other
-- number is a natural one. Numbers with fractions are left out: where the code computes with them
-- (amounts and prices in dollars), the model counts cents, base units or units of a price. Sums and
-- products are the same below 2^53. A quotient that the code rounds (Grid.antt, Payouts.antt) is exact
-- in the model, so the two can differ where the code's quotient stands for one that lies on a half.
--
-- Three loops run on fuel. The tiebreaker has one turn for each entry, which is enough since a turn
-- takes an entry (Payouts/Tiebreaker.antt). The layers of a tree have one more than the number of leaves, which
-- Merkle/Layers.antt shows to be enough. The retry loop has any fuel, and Retry/Fuel.antt the fuel that is
-- enough, under the stated behaviour of the clock and of `sleep`.
--
-- Not modelled: the program in Rust, the user interface, network clients, the database but for the
-- insertions named above, uploads, and the other builders and jobs.
pub mod Prelude
pub mod Bytes
pub mod Base58
pub mod Leaderboard
pub mod OrderBook
pub mod Solana
pub mod Trade
pub mod Fees
pub mod Retry
pub mod Database
pub mod Settlement
pub mod Grid
pub mod Morning
pub mod Distribution
pub mod Payouts
pub mod Merkle
pub mod MetricTree
pub mod Tests
