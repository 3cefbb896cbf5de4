-- ===== src/Common.antt =====
-- crates/common: guest addresses, protections, alignment and the error type.
pub mod Result
pub mod Outcome
pub mod Addr
pub mod Protection
pub mod Align
pub mod Endian
pub mod Utf8
