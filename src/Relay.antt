-- ===== src/Relay.antt =====
-- crates/aegis-relay: the mix relay, from the frames of a link to the packets it forwards.
--
-- The channels of tokio are the interface of Relay/Channels.
pub mod Channels
pub mod FairQueue
pub mod Samples
pub mod Config
pub mod Node
pub mod Peers
pub mod Labels
pub mod Rates
pub mod Health
pub mod Limits
pub mod Ingress
