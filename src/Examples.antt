-- ===== src/Examples.antt =====
-- The theorems at concrete inputs.
mod Verdicts
mod Addresses
mod Masks
mod Populations
mod Findings
mod Reruns
mod Suites
mod Graphs
mod Payloads
mod Rounds
mod Caches
mod Closures
