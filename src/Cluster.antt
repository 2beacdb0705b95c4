-- ===== src/Cluster.antt =====
-- internal/cluster: what server replicas send one another.
pub mod Envelope
pub mod Memory
