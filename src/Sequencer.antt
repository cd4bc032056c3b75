-- ===== src/Sequencer.antt =====
-- The sequencer (crates/sequencer), one module for each file of its source that is modelled.
pub mod Params
pub mod Identity
pub mod Envelope
pub mod Records
pub mod Admission
pub mod Store
pub mod Transcript
pub mod Fraud
pub mod Clock
pub mod Anchor
pub mod Node
pub mod Tests
