-- ===== src/Api.antt =====
-- src/loopgraph_supervisor/api/app.py: what the routes decide.
pub mod Promotion
pub mod Routes
