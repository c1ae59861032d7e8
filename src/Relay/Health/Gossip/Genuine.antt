-- ===== src/Relay/Health/Gossip/Genuine.antt =====
-- Which reports reach the tracker and the log.
use anonymous.Common.Results.{ok, err, Result-cases}
use anonymous.Common.Tables.{find, bytes_key}
use anonymous.Common.{
  ℕ, ◌+◌, ◌≤◌, ◌≡◌, refl, ap, ◌∙◌, ◌⊎◌, inl, inr, true, Option, none, some, List, arith, Bool-cases,
  Option-cases, bytes_eq, bytes_eq_iff,
}
use anonymous.Relay.Node.{RelayId}
use anonymous.Relay.Peers.{PeerInfo, PeerTable}
use anonymous.Relay.Health.{PeerHealthTracker}
use anonymous.Relay.Rates.{Floats}
use anonymous.Relay.Health.Advert.{
  Ed25519, PeerHealthAdvert, HealthGossipError, bad_signature, reporter_mismatch, unknown_reporter,
  missing_verifying_key, stale_timestamp, verify,
}
use anonymous.Relay.Health.QuorumLog.{Disk, HealthQuorumLog, append_verified}
use anonymous.Relay.Health.Gossip.{
  skew_ok, known_peer, verifying_key_of, take_advert, accept_advert_quorum,
}

skew_ok-true :
    (now time age : ℕ) → skew_ok now time age ≡ true → (now ≤ time + age) × (time ≤ now + 120)
unfolding skew_ok
skew_ok-true now time age h = (ground (arith, h), ground (arith, h))

module _ (f : Floats) (ed : Ed25519) where
  -- The report was signed by the neighbor at the other end of the link, whose key is configured,
  -- and not long ago.
  pub record Genuine (advert : PeerHealthAdvert) (link_peer : RelayId) (peer_table : PeerTable)
      (now age : ℕ) : Type 0 where
    pub peer : PeerInfo
    pub bytes : List ℕ
    pub key : ed.VerifyingKey
    pub own : link_peer ≡ advert.reporter
    pub admitted : find link_peer peer_table ≡ some peer
    pub configured : peer.gossip_verifying_key ≡ some bytes
    pub valid_key : ed.from_bytes bytes ≡ some key
    pub signed : verify ed advert key ≡ ok tt
    pub not_old : now ≤ advert.timestamp_secs + age
    pub not_ahead : advert.timestamp_secs ≤ now + 120

  record Known (advert : PeerHealthAdvert) (link_peer : RelayId) (peer_table : PeerTable)
      : Type 0 where
    peer : PeerInfo
    bytes : List ℕ
    key : ed.VerifyingKey
    own : link_peer ≡ advert.reporter
    admitted : find link_peer peer_table ≡ some peer
    configured : peer.gossip_verifying_key ≡ some bytes
    valid_key : ed.from_bytes bytes ≡ some key
    result : known_peer f ed advert link_peer peer_table ≡ ok (peer, key)

  known_peer-cases :
      (advert : PeerHealthAdvert) (link_peer : RelayId) (peer_table : PeerTable)
      → ((e : HealthGossipError) × (known_peer f ed advert link_peer peer_table ≡ err e))
        ⊎ Known advert link_peer peer_table
  unfolding known_peer
  known_peer-cases advert link_peer peer_table =
      elim (Bool-cases (bytes_eq link_peer advert.reporter)) [
        | inr other ↦ inl (reporter_mismatch, rw other refl)
        | inl same ↦ elim (Option-cases (find link_peer peer_table)) [
          | inl e ↦ inl (unknown_reporter, rw (same, e) refl)
          | inr (peer, e) ↦ elim (Option-cases peer.gossip_verifying_key) [
            | inl g ↦ inl (missing_verifying_key, rw (same, e) (rw g refl))
            | inr (bytes, g) ↦ elim (Option-cases (ed.from_bytes bytes)) [
              | inl v ↦
                  let no_key : verifying_key_of f ed peer.gossip_verifying_key
                      ≡ err missing_verifying_key =
                    ap (verifying_key_of f ed) g ∙ rw (v, verifying_key_of) refl in
                  inl (missing_verifying_key, rw (same, e) (rw no_key refl))
              | inr (key, v) ↦
                  let its_key : verifying_key_of f ed peer.gossip_verifying_key ≡ ok key =
                    ap (verifying_key_of f ed) g ∙ rw (v, verifying_key_of) refl in
                  inr (record {
                    peer = peer;
                    bytes = bytes;
                    key = key;
                    own = (bytes_eq_iff link_peer advert.reporter).0 same;
                    admitted = e;
                    configured = g;
                    valid_key = v;
                    result = rw (same, e) (rw its_key refl);
                  })
            ]
          ]
        ]
      ]

  module _ (disk : Disk) where
    take_advert-forged :
        (advert : PeerHealthAdvert) (epoch_secs : ℕ) (tracker : PeerHealthTracker f)
        (peer : PeerInfo) (key : ed.VerifyingKey) (log : Option (HealthQuorumLog disk))
        (x : HealthGossipError)
        → verify ed advert key ≡ err x
        → let r = take_advert f ed disk advert epoch_secs tracker peer key log in
          (e : HealthGossipError) × (r.result ≡ err e) × (r.tracker ≡ tracker) × (r.log ≡ log)
    unfolding append_verified
    take_advert-forged advert epoch_secs tracker peer key none x forged = (
      x,
      rw (forged, take_advert) refl,
      rw (forged, take_advert) refl,
      rw (forged, take_advert) refl,
    )
    take_advert-forged advert epoch_secs tracker peer key (some log) x forged = (
      bad_signature,
      rw (forged, append_verified) refl,
      rw (forged, append_verified) refl,
      rw (forged, append_verified) refl,
    )

    -- A report that is not genuine is answered with an error, and changes neither the log of reports,
    -- with or without one, nor the tracker: genuine is a report by the neighbor at the other end of
    -- the link, who stands in the peer table with a valid verifying key that the signature verifies
    -- under, with a time at most the given age before now and at most two minutes after it.
    pub accept_advert_quorum-Genuine :
        (advert : PeerHealthAdvert) (link_peer : RelayId) (peer_table : PeerTable)
        (now age epoch_secs : ℕ) (tracker : PeerHealthTracker f)
        (log : Option (HealthQuorumLog disk))
        → let r =
            accept_advert_quorum f ed disk advert link_peer peer_table now age epoch_secs tracker
              log in
          Genuine advert link_peer peer_table now age
          ⊎ ((e : HealthGossipError) × (r.result ≡ err e) × (r.tracker ≡ tracker) × (r.log ≡ log))
    unfolding accept_advert_quorum
    accept_advert_quorum-Genuine advert link_peer peer_table now age epoch_secs tracker log =
        elim (known_peer-cases advert link_peer peer_table) [
          | inl (e, bad) ↦ inr (
            e,
            rw (bad, accept_advert_quorum) refl,
            rw (bad, accept_advert_quorum) refl,
            rw (bad, accept_advert_quorum) refl,
          )
          | inr k ↦ elim (Bool-cases (skew_ok now advert.timestamp_secs age)) [
            | inr stale ↦ inr (
              stale_timestamp,
              rw (k.result, accept_advert_quorum) (rw stale refl),
              rw (k.result, accept_advert_quorum) (rw stale refl),
              rw (k.result, accept_advert_quorum) (rw stale refl),
            )
            | inl fresh ↦ elim (Result-cases (verify ed advert k.key)) [
              | inl (x, forged) ↦
                  let (e, answer, kept, same) =
                    take_advert-forged advert epoch_secs tracker k.peer k.key log x forged in
                  inr (
                    e,
                    rw (k.result, accept_advert_quorum) (rw fresh answer),
                    rw (k.result, accept_advert_quorum) (rw fresh kept),
                    rw (k.result, accept_advert_quorum) (rw fresh same),
                  )
              | inr (_, good) ↦
                  let (not_old, not_ahead) = skew_ok-true now advert.timestamp_secs age fresh in
                  inl (record {
                    peer = k.peer;
                    bytes = k.bytes;
                    key = k.key;
                    own = k.own;
                    admitted = k.admitted;
                    configured = k.configured;
                    valid_key = k.valid_key;
                    signed = good;
                    not_old = not_old;
                    not_ahead = not_ahead;
                  })
            ]
          ]
        ]
