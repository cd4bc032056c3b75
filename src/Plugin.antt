-- ===== src/Plugin.antt =====
-- crates/continuum-lighter-plugin: the reference relations of the proof join.
pub mod Canonical
pub mod Types
pub mod Hash
pub mod Accumulator
pub mod Binding
pub mod Join
pub mod Sequence
mod Tests
