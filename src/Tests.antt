-- ===== src/Tests.antt =====
-- Runs of the definitions on concrete objects, and the theorems at them.
pub mod Objects
pub mod Base64
pub mod Keys
pub mod Bundle
pub mod Projects
pub mod Semantics
pub mod Clusters
pub mod Reconciler
pub mod Operator
pub mod Runs
pub mod Effects
pub mod Stores
