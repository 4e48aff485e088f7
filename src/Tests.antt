-- ===== src/Tests.antt =====
-- Runs on concrete data, and each theorem at an input that meets its hypotheses.
mod Ratios
mod Bundles
mod Sources
mod Challenges
mod Limits
mod Deadlines
mod Checks
mod Gates
mod Caches
mod Headers
mod Algorithms
mod Leases
mod Attempts
mod Claims
mod Intents
mod Traces
mod Draws
mod Lifecycles
mod Restarts
