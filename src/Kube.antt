-- ===== src/Kube.antt =====
-- The Kubernetes objects that the plugin reads and writes, and the API server that keeps them.
pub mod Dict
pub mod Objects
pub mod Client
