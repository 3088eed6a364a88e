-- ===== src/Oracle.antt =====
-- internal/oracle: the outcome of a mutant, how it is judged, stored and counted.
pub mod Outcome
pub mod Constructors
pub mod Record
pub mod Observation
pub mod Judge
pub mod Population
pub mod Metrics
