-- ===== src/Discovery.antt =====
-- internal/discovery: canonical addresses, and what the closure concludes about an address.
pub mod Address
pub mod Reach
pub mod Expressions
pub mod Graph
pub mod Closure
