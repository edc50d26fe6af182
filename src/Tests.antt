-- ===== src/Tests.antt =====
-- The theorems at concrete inputs.
mod Codec
mod Pods
mod Lock
mod Allocate
mod Devices
mod Choice
mod Plugin
mod Health
mod Monitor
mod Watch
mod Lister
mod Patterns
mod Build
mod Config
mod Register
mod Vgpu
