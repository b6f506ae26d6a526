-- ===== src/Samples.antt =====
-- The theorems at concrete inputs, and the inputs.
mod Values
mod Access
mod Streaming
mod Expressions
mod Observations
mod Verified
mod Graphs
mod Chats
mod Declared
mod Planned
mod Queries
mod Compiled
mod Planner
mod Documents
mod Runs
mod Runner
mod Jobs
