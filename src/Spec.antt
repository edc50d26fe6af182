-- ===== src/Spec.antt =====
-- api/config/v1: the configuration of the plugin.
pub mod Strategy
pub mod Replicas
pub mod Resources
