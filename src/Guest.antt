-- ===== src/Guest.antt =====
-- guest/src/lib.rs: the journal, the private witness and the hashes that tie them together.
pub mod Crates
pub mod Field
pub mod Hash
pub mod Journal
pub mod Reduce
pub mod Spec
pub mod Hashes
pub mod Validate
pub mod Layout
pub mod Inputs
pub mod Residues
pub mod Binding
pub mod Separation
pub mod Salt
pub mod Samples
pub mod UnitTests
pub mod UnitChecks
pub mod Tests
