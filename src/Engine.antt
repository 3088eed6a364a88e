-- ===== src/Engine.antt =====
-- internal/engine: what a run concludes of its classified population.
pub mod Acceptance
pub mod Curate
pub mod UntilDry
