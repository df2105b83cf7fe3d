-- ===== src/Examples.antt =====
-- The theorems at concrete inputs.
mod Budgets
mod Mailboxes
mod Streams
mod Names
mod Routes
mod Agents
mod Signatures
mod Supervisors
mod Spawns
mod Buses
mod Observed
mod Topologies
mod Servers
