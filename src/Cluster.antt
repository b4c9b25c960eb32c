-- ===== src/Cluster.antt =====
-- pkg/kubernetes: the pods of a cluster, and the port forwards to them.
pub mod Pods
pub mod Forwards
