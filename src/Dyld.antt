-- ===== src/Dyld.antt =====
-- crates/loader/src/dyld: the opcode streams of the dynamic linker, and its symbol table.
pub mod Leb
pub mod Opcode
pub mod LebRoundTrip
pub mod Loop
pub mod Rebase
pub mod RebaseLaws
pub mod RebaseRoundTrip
pub mod Bind
pub mod BindLaws
pub mod LazyBind
pub mod LazyRoundTrip
pub mod BindRoundTrip
pub mod Linker
pub mod LinkerLaws
