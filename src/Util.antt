-- ===== src/Util.antt =====
-- pkg/util: the annotations through which the scheduler and the plugin talk, and the pod that an
-- allocation serves.
pub mod Types
pub mod Codec
pub mod Pods
pub mod Allocation
pub mod CdiSpec
pub mod Smi
