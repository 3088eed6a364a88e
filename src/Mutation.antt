-- ===== src/Mutation.antt =====
-- internal/mutation: the operator catalogue.
pub mod Catalogue
pub mod Edit
