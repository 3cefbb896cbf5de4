-- ===== src/Hle.antt =====
-- crates/hle: the Objective-C runtime.
pub mod Runtime
