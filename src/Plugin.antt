-- ===== src/Plugin.antt =====
-- pkg/plugin: the device plugin that the kubelet calls.
pub mod Action
pub mod Entries
pub mod Mig
pub mod Prepare
pub mod Register
pub mod Allocate
pub mod Response
pub mod Watch
