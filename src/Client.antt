-- ===== src/Client.antt =====
-- crates/aegis-client: the parts of the client that decide when bytes appear on the wire.
pub mod Emitter
pub mod Padding
