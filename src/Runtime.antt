-- ===== src/Runtime.antt =====
-- rktlet/runtime: the CRI runtime service on top of the rkt command line.
pub mod AppName
pub mod Types
pub mod Filter
pub mod UserArgs
pub mod Annotations
pub mod Network
pub mod Status
pub mod Seccomp
pub mod AppAdd
pub mod Sandbox
pub mod Containers
pub mod Pods
pub mod Exec
pub mod Terminal
pub mod Service
pub mod Lifecycle
