-- ===== src/Tests.antt =====
-- Concrete runs of the modelled code, and applications of the theorems to them.
mod Trades
mod Mornings
mod Books
mod Payouts
mod Grids
mod Settlements
mod Trees
mod Metrics
mod Leaderboards
mod Rewards
