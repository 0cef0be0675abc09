-- ===== src/Evolution.antt =====
-- src/loopgraph_supervisor/evolution/: the mutation of an agent bundle, and when a candidate may be
-- promoted.
pub mod Mutator
pub mod Promotion
