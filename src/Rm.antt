-- ===== src/Rm.antt =====
-- pkg/rm: the devices of a resource, their replicas, and which of them an allocation prefers.
pub mod AnnotatedId
pub mod Devices
pub mod DeviceMap
pub mod NvmlDevice
pub mod Allocate
