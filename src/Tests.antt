-- ===== src/Tests.antt =====
-- Concrete inputs: each property that has hypotheses, applied where they hold.
mod Macho
mod Ipa
mod Loader
mod Memory
mod Dyld
mod Vfs
mod Kernel
mod Run
