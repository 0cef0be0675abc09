-- ===== src/Engine.antt =====
-- `SupervisorEngine` of src/loopgraph_supervisor/application/engine.py.
pub mod Exec
pub mod Config
pub mod Runs
pub mod Keeps
pub mod Phase
pub mod Emit
pub mod Evaluate
pub mod Attempt
pub mod Control
