-- ===== src/Planner.antt =====
-- The planner of cpp/planner.cpp.
pub mod Order
pub mod Steps
pub mod Plan
mod Tests
