-- ===== src/Health.antt =====
-- pkg/rm/health.go: which XID errors count, and which devices an event marks as unhealthy.
pub mod Xids
pub mod Events
