-- ===== src/Vdf.antt =====
-- The delay function (crates/vdf): the sequential proofs of src/posq.rs, the time-lock of src/tlk.rs and
-- the waves of src/batch_solve.rs.
pub mod Modular
pub mod Posq
pub mod Hashing
pub mod Tlk
pub mod Wave
mod Tests
