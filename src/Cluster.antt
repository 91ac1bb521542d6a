-- ===== src/Cluster.antt =====
-- The protocol between the nodes of a cluster, lib/cluster.
pub mod Proto
