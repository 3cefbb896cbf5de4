-- ===== src/Vfs.antt =====
-- crates/vfs: guest paths, and the sandbox that maps them to host paths.
pub mod Bytes
pub mod Translate
pub mod HostPath
pub mod Trim
pub mod Sandbox
pub mod Normalize
pub mod Escape
pub mod Containment
