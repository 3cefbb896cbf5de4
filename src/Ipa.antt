-- ===== src/Ipa.antt =====
-- crates/ipa/src/plist.rs: property lists.
pub mod Value
pub mod Text16
pub mod Binary
pub mod BinaryLaws
pub mod Scan
pub mod Cursor
pub mod Xml
pub mod XmlLaws
pub mod Keys
pub mod Discovery
pub mod DiscoveryLaws
