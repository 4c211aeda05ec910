-- ===== src/Tests.antt =====
-- The theorems applied to concrete inputs.
mod Base
mod Sort
mod Aggregation
mod Requests
mod Storage
mod Checks
mod Escrow
mod Served
mod Exchange
mod Startup
mod Cycle
mod Loading
