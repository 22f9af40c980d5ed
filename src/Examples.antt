-- ===== src/Examples.antt =====
-- Tests of the modelled code, and the theorems at concrete inputs.
mod Messages
mod Decisions
mod Providers
mod Groups
mod Workflows
mod Runs
mod Pools
mod Signals
mod Nodes
mod Serial
mod Leases
mod Statuses
mod Letters
