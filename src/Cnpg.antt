-- ===== src/Cnpg.antt =====
-- internal/resources/cnpg: the database cluster, its backups and its publication.
pub mod Parameters
pub mod Roles
pub mod Cluster
pub mod Backup
pub mod Coherence
