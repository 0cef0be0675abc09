-- ===== src/Grading.antt =====
-- Grading: src/loopgraph_supervisor/grading/.
pub mod Policy
pub mod Rules
