-- ===== src/Lib.antt =====
-- AEGIS: verification of the datapath of a metadata-hiding transport.
--
-- The program. A client hides what it sends and when. It wraps a payload in a Sphinx packet, one
-- masked layer for each relay of a path of up to six, cuts the packet into cells of 512 bytes,
-- and sends one cell a slot, real or cover. A relay collects the cells of a packet, checks the
-- packet against its keys and its replay cache, peels a layer and forwards the rest. Bulk transfers
-- opt into rounds, where the negotiator says how many cover flows hide the real ones, and relays
-- emit them. Two relays share a link: a handshake over a pre-shared key gives a session key, and each
-- cell travels as one sealed frame. The packets of all links wait in a weighted fair queue, whose
-- weights follow the health of the peers; the relays report that health to each other in signed
-- cells. A registry keeps the nullifiers of spent reputation. Secret sharing splits the seeds of the
-- key ceremony.
--
-- How the parts meet. The client's `build` (Sphinx/Build) and the relay's `process` (Sphinx) share
-- the layout and the key stream, and meet in the packets in layers of Sphinx/Build/Layers.
-- `process` calls the key encapsulation (Kem) and the replay cache (Replay). The cells of Fragment
-- carry a packet from one relay to the next; the cover flows (CoverFlow) use `build`, `fragment`
-- and the arithmetic of the negotiator. The emitter (Client/Emitter) draws cells from its queues or
-- makes cover, and the padder (Client/Padding) shows a fixed number of deliveries a round.
-- An inbound connection (Relay/Ingress) opens frames with Link, gives fragments to the reassembler,
-- reports to Relay/Health and packets to Relay/FairQueue; the relay's loop (Relay/Node) takes them
-- from its channel, calls `process`, and runs the rounds of CoverFlow. Relay/Channels is the
-- interface between these and the channels of tokio.
--
-- Files, with the code that each one is about.
--   Common and its children: Boolean tests, lists over the native numbers, byte buffers with
--     `slice` and `splice`, exclusive or, `Result` with its bind, association lists.
--   Cell: crates/aegis-crypto/src/cell.rs. A cell is a command and a list of bytes.
--   Fragment: crates/aegis-crypto/src/fragment.rs. `fragment`, `reassemble` and the reassembler
--     `push`, which returns the new state with its result.
--   Replay: crates/aegis-crypto/src/replay.rs. The state is the record of the same name with every
--     container that the code keeps; Replay/Window is its abstract view.
--   Kem: crates/aegis-crypto/src/kem.rs and the errors of crates/aegis-crypto/src/lib.rs.
--   Sphinx and Sphinx/Build: crates/aegis-crypto/src/sphinx.rs, the relay's and the client's side.
--   Negotiator: crates/aegis-negotiator/src/{dial,cover,scheduler,ceiling}.rs.
--   CoverFlow: crates/aegis-relay/src/cover_flow.rs.
--   Client/Emitter and Client/Padding: emitter.rs and padding.rs of crates/aegis-client/src.
--   Nullifier: crates/aegis-trust/src/nullifier.rs.
--   Shamir: crates/aegis-topology/src/shamir.rs. The random bytes are a list that is drawn from.
--   Link: crates/aegis-crypto/src/link.rs. Messages are bytes, drawn secrets and nonces arguments.
--   Relay/Node, Relay/Config, Relay/Channels: node.rs, config.rs and relay_id.rs of
--     crates/aegis-relay/src. The relay's loop is `run` over its events, and the
--     bridge (net.rs) takes packets from its outbound channel at any time.
--   Relay/FairQueue, Relay/Limits, Relay/Ingress, Relay/Peers: crates/aegis-relay/src/net.rs. The
--     hub's slots and cursor; the token buckets; a connection after its handshake as a run over
--     arriving frames; the peer table.
--   Relay/Health, Relay/Labels, Relay/Rates: peer_health.rs, its tracker, its names and diversity
--     keys, and its rates with their median. The children of Relay/Health: Advert and Gossip are
--     health_gossip.rs, QuorumLog is health_quorum_log.rs, all of crates/aegis-relay/src.
-- A file's children hold what is proved about it; the ones named Tests hold concrete runs.
--
-- Conventions. A byte is a number, and a theorem says below 256 where that matters; arrays are
-- lists, and the lengths that Rust's types give are hypotheses. Widths appear where the code can
-- wrap: `as u32` and `as u16` are `% 2 ^ w`, and saturating operations stop at their bound.
-- `&mut self` is a state taken and returned. `Result` and `Option` are values, and an early return
-- skips the state changes behind it. A panic of the code is not modelled: `slice` and `splice` out
-- of range give shorter or unchanged lists, and the theorems that could be affected prove or
-- assume that accesses are in range.
--
-- Bounds and fuel. The loops that hash blocks until a range is covered recurse on fuel equal to
-- the number of bytes of the range, which is enough because a turn covers at least one byte. The
-- loop that drops the oldest generations of the replay cache recurses on the number of
-- generations, of which a turn removes one. The loop of `gf_inv` recurses on its exponent, which
-- every turn halves. The scan of the fair queue recurses on the number of its slots, each of which
-- it meets once. All else recurses on its data.
--
-- Parameters. X25519, ML-KEM and SHA3 are a record of functions; the agreement of both ends, and
-- the lengths of what they return, are named hypotheses, which toy primitives in the Tests fulfil.
-- So are ChaCha20-Poly1305 and Ed25519, with what they decrypt and verify of their own output, and
-- the bounded channels of tokio, which are queues. The rest are subtle's comparison in constant
-- time, the random draws, the file behind the log of reports, and the numbers in floating point: the
-- replay cache's rotation threshold, the token buckets, the rates of failure and their median.
--
-- Not modelled. Secrecy of the primitives, timing and zeroization, which a functional model does
-- not show; formulas in floating point that decide nothing; sockets, tasks, clocks, files and
-- formats of files; debug output. The Noise handshakes of a link, the choice of the handshake and of
-- the key of an inbound connection, the outbound connections of a relay, rosters, guards, path
-- selection, key custody, reputation, attestation, simulation and deployment are outside this
-- development.
pub mod Common
pub mod Replay
pub mod Cell
pub mod Fragment
pub mod Kem
pub mod Negotiator
pub mod CoverFlow
pub mod Client
pub mod Nullifier
pub mod Shamir
pub mod Link
pub mod Relay
pub mod Sphinx
