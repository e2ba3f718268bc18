-- ===== src/Examples.antt =====
-- Runs of the modelled code on concrete inputs, one file for each part.
mod Graphs
mod Routes
mod Tasks
mod Queues
mod Policies
mod Recoveries
mod Events
mod Files
mod Windows
mod Locks
mod Watchdogs
mod Loops
mod Approvals
mod Executions
mod Sessions
