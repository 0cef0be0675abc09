-- ===== src/Domain.antt =====
-- The immutable domain objects: src/loopgraph_supervisor/domain/, and the data types of
-- harness/base.py and application/observer.py that events carry.
pub mod Json
pub mod Models
pub mod Directives
pub mod Runs
pub mod Events
pub mod Snapshot
