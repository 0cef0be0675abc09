-- ===== src/Tests.antt =====
-- Concrete runs: the data of the tests, and the theorems at these data.
pub mod Data
mod Store
mod Engine
mod Parts
mod Releases
mod Evolution
mod Teams
mod Promotions
mod Proposals
mod Routes
mod Graders
