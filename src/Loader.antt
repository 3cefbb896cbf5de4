-- ===== src/Loader.antt =====
-- crates/core/src/loader.rs and `Machine::load` of crates/core/src/machine.rs: a process is built
-- from an image.
pub mod Layout
pub mod Segments
pub mod Binds
pub mod Stubs
pub mod Stack
pub mod Process
pub mod Machine
pub mod Keeps
pub mod Paired
pub mod Imports
pub mod Tables
pub mod StackHolds
pub mod Builds
pub mod Slide
