-- ===== src/Tests.antt =====
-- Runs of the model on small inputs: each theorem with hypotheses or arguments is applied to values that
-- the code meets.
mod Mapping
mod Chains
mod Fees
mod Builders
mod Blocks
mod Payloads
mod Engines
mod Requests
mod Journey
mod Threads
mod Node
mod Servers
mod Schedules
mod Handover
