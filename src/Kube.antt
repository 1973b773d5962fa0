-- ===== src/Kube.antt =====
-- The Kubernetes and CloudNativePG objects that the operator reads and writes. Their types belong to
-- other repositories: a record here has the fields that the operator reads or writes.
pub mod Meta
pub mod Core
pub mod Cnpg
