-- ===== src/Kernel.antt =====
-- crates/core: descriptors, registers, system calls and the machine.
pub mod Fd
pub mod FdLaws
pub mod Cpu
pub mod Decode
pub mod Mach
pub mod StubBinder
pub mod Unix
pub mod Run
pub mod RunStops
