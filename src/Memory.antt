-- ===== src/Memory.antt =====
-- crates/memory: the guest address space.
pub mod Region
pub mod Allocator
pub mod RegionMap
pub mod Guest
pub mod Spread
pub mod Update
pub mod CheckFree
pub mod Bytes
pub mod Mapping
pub mod Splice
pub mod Access
pub mod ReadWrite
pub mod Typed
pub mod Protect
pub mod Arena
pub mod Wrap
