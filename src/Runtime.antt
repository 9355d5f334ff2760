-- ===== src/Runtime.antt =====
-- The runtime engine of cpp/runtime with the faults of cpp/telemetry/engine.cpp: the control of traffic
-- sources, the admission and the execution of jobs, and the life of faults.
pub mod Machine
pub mod Source
pub mod Execution
pub mod Jobs
pub mod Faults
mod Tests
