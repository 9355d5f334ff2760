-- ===== src/Topology.antt =====
-- Topologies: the checks of packages/lab-support/cpp/contracts.cpp on a document and its artifact lock.
pub mod Json
pub mod Names
pub mod Cidr
pub mod Lock
pub mod Nodes
pub mod Edges
pub mod Switches
pub mod Management
pub mod Validate
pub mod Sample
mod Tests
