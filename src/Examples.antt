-- ===== src/Examples.antt =====
-- Runs of the model at concrete inputs.
mod Access
mod Ledger
mod Payments
mod Pools
mod Refunds
mod Requests
mod Handlers
mod Streams
mod Accounts
mod Recharges
mod Tokens
