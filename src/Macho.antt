-- ===== src/Macho.antt =====
-- crates/loader/src/macho: the Mach-O parser.
pub mod Reader
pub mod Consts
pub mod Image
pub mod Command
pub mod Parse
pub mod Bounds
pub mod Fits
pub mod CommandOutcome
pub mod ParseOutcome
pub mod Written
pub mod Encoded
pub mod PayloadRead
pub mod RoundTrip
