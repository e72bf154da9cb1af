-- ===== src/Prover.antt =====
-- server/src/prover.rs: the seal encoding, the image id and proof generation.
pub mod Seal
pub mod Subtract
pub mod Negate
pub mod ImageId
pub mod Zkvm
pub mod Generate
pub mod Sound
pub mod UnitTests
mod UnitChecks
pub mod Tests
