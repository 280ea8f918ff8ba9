-- ===== src/Graph.antt =====
-- src/collectmind/graph: the policy loop and its composition.
pub mod Session
pub mod Nodes
pub mod Build
pub mod Runner
mod Examples
