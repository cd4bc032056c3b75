-- ===== src/Gateway.antt =====
-- The demo gateway (demo/gateway/src): its order book and the adapter that executes the tape.
pub mod Book
pub mod Adapter
mod Tests
