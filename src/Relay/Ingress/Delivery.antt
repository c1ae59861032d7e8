-- ===== src/Relay/Ingress/Delivery.antt =====
-- A packet that comes in over a link, among the cells that are not for it.
use anonymous.Common.Results.{Result, ok, err}
use anonymous.Common.{
  ℕ, zero, suc, ◌+◌, ◌%◌, ◌<◌, ◌≡◌, ◌≢◌, refl, sym, ap, ◌∙◌, ◌⊎◌, inl, inr, false, some, List, [],
  ◌∷◌, length, get_or, tail, arith,
}
use mathlib.Core.Path.{subst}
use anonymous.Cell.{Cell, from_u8, sphinx_fragment}
use anonymous.Fragment.{
  PacketId, new, push, fragment, fragment_from, encode_fragment_cell, sphinx_fragment_count,
  sphinx_packet_len,
}
use anonymous.Fragment.Cells.{encoded_command, encoded_reserved}
use anonymous.Fragment.RoundTrip.{Collected, new-Collected, push-Collected, push_complete}
use anonymous.CoverFlow.Markers.{unmarked}
use anonymous.Link.{Aead, LinkKey}
use anonymous.Relay.Channels.{Mpsc, ChannelClosed}
use anonymous.Relay.FairQueue.{FairHub, try_enqueue}
use anonymous.Relay.Rates.{Floats}
use anonymous.Relay.Health.Advert.{Ed25519}
use anonymous.Relay.Health.QuorumLog.{Disk}
use anonymous.Relay.Ingress.{Arrival, Session, Ingress, going, pushed, turn, run}
use anonymous.Relay.Limits.{Rates, is_active}
use anonymous.Relay.Ingress.Control.{IsSealed, IsSealed-opened, IsAside, turn-aside, turn-fragment}

module _ (aead : Aead) (key : LinkKey) where
  -- The frames carry the cells in their order, with cells between them that are left aside.
  unfoldable pub Carries : List Cell → List Arrival → Type 0
  Carries cells [] = cells ≡ []
  Carries cells (a ∷ frames) =
      ((other : Cell) × IsAside other × IsSealed aead key other a.frame × Carries cells frames)
      ⊎ ((cell : Cell) × (rest : List Cell) × (cells ≡ cell ∷ rest)
          × IsSealed aead key cell a.frame
          × Carries rest frames)

nil_cons : (c : Cell) (cs : List Cell) → ◌≢◌ {A = List Cell} [] (c ∷ cs)
nil_cons c cs e = cc

module _ (aead : Aead) (q : Rates) (f : Floats) (ed : Ed25519) (disk : Disk) (m : Mpsc (List ℕ))
    (session : Session aead q f ed disk m) where
  abbrev In : Type 0
  In = Ingress aead q f ed disk m

  run-going :
      (s s' : In) (a : Arrival) (frames : List Arrival)
      → turn aead q f ed disk m session s a ≡ going s'
      → run aead q f ed disk m session s (a ∷ frames) ≡ run aead q f ed disk m session s' frames
  unfolding run
  run-going s s' a frames e = rw (e, run) refl

  -- With nothing left to come, the rest of the frames changes nothing.
  run-aside :
      (s : In) (frames : List Arrival)
      → is_active q s.rate_limit.config ≡ false
      → Carries aead session.session_key [] frames
      → run aead q f ed disk m session s frames ≡ going s
  unfolding Carries run
  run-aside s [] off c = refl
  run-aside s (a ∷ frames) off (inr (cell, rest, e, _, _)) = absurd (nil_cons cell rest e)
  run-aside s (a ∷ frames) off (inl (other, aside, sealed, c)) =
      run-going s s a frames (
        turn-aside aead q f ed disk m session s a other off
          (IsSealed-opened aead session.session_key other a.frame sealed) aside)
      ∙ run-aside s frames off c

  module _ (id : PacketId) (packet : List ℕ) (id8 : length id ≡ 8)
      (whole : length packet ≡ sphinx_packet_len) where
    -- The frame of a cell of the packet is pushed into the reassembler.
    turn-cell :
        (s : In) (a : Arrival) (i : ℕ)
        → i < sphinx_fragment_count
        → is_active q s.rate_limit.config ≡ false
        → IsSealed aead session.session_key (encode_fragment_cell id i packet) a.frame
        → turn aead q f ed disk m session s a
          ≡ pushed aead q f ed disk m session s
              (push s.reassembler (encode_fragment_cell id i packet))
    unfolding from_u8
    turn-cell s a i h off sealed =
        let cell = encode_fragment_cell id i packet in
        let command = encoded_command id i packet id8 whole h in
        let is_fragment : from_u8 (get_or cell 0 0) ≡ some sphinx_fragment = ap from_u8 command in
        turn-fragment aead q f ed disk m session s a cell off
          (IsSealed-opened aead session.session_key cell a.frame sealed) is_fragment
          (unmarked cell command (encoded_reserved id i packet id8 whole h))

    -- The connection after the packet: its reassembler starts over, the packet is in the queue.
    abbrev pub delivered : In → In
    delivered s =
        let r = try_enqueue m s.hub session.slot_id packet s.queue_drops in
        record s { reassembler = new; hub = r.0; queue_drops = r.1.0 }

    pushed_complete :
        (s : In) (r : FairHub m × (ℕ × Result ChannelClosed (Unit {0})))
        → try_enqueue m s.hub session.slot_id packet s.queue_drops ≡ r
        → r.1.1 ≡ ok tt
        → pushed aead q f ed disk m session s (new, ok (some packet))
          ≡ going (record s { reassembler = new; hub = r.0; queue_drops = r.1.0 })
    pushed_complete s (hub, (dropped, ok _)) e h = rw e refl
    pushed_complete s (hub, (dropped, err x)) e h = absurd (err_ok x h)
      where
        err_ok : (x : ChannelClosed) → ◌≢◌ {A = Result ChannelClosed (Unit {0})} (err x) (ok tt)
        err_ok x same = cc

    -- The next cell of the packet, and those behind it.
    next_cell :
        (n i : ℕ) (cell : Cell) (rest : List Cell) (a : Arrival) (frames : List Arrival)
        → i < sphinx_fragment_count
        → fragment_from (suc n) i packet id ≡ cell ∷ rest
        → IsSealed aead session.session_key cell a.frame
        → Carries aead session.session_key rest frames
        → IsSealed aead session.session_key (encode_fragment_cell id i packet) a.frame
          × Carries aead session.session_key (fragment_from n (i + 1) packet id) frames
    unfolding fragment_from
    next_cell n i cell rest a frames h same sealed carried =
        let small : i % 256 ≡ i = omega (arith, h) in
        let first : cell ≡ encode_fragment_cell id i packet =
          sym (ap (λ l. get_or l 0 []) same) ∙ ap (λ k. encode_fragment_cell id k packet) small in
        (
          subst (λ c. IsSealed aead session.session_key c a.frame) first sealed,
          subst (λ l. Carries aead session.session_key l frames) (sym (ap tail same)) carried,
        )

    run-collecting :
        (n i : ℕ) (s : In) (frames : List Arrival)
        → Collected id packet id8 whole i s.reassembler
        → i + suc n ≡ sphinx_fragment_count
        → is_active q s.rate_limit.config ≡ false
        → (try_enqueue m s.hub session.slot_id packet s.queue_drops).1.1 ≡ ok tt
        → Carries aead session.session_key (fragment_from (suc n) i packet id) frames
        → run aead q f ed disk m session s frames ≡ going (delivered s)
    unfolding Carries fragment_from
    run-collecting n i s [] c e off open_ none_left = absurd (nil_cons _ _ (sym none_left))
    run-collecting n i s (a ∷ frames) c e off open_ (inl (other, aside, sealed, carried)) =
        run-going s s a frames (
          turn-aside aead q f ed disk m session s a other off
            (IsSealed-opened aead session.session_key other a.frame sealed) aside)
        ∙ run-collecting n i s frames c e off open_ carried
    run-collecting zero i s (a ∷ frames) c e off open_ (inr (cell, rest, same, sealed, carried)) =
        let (sealed', carried') =
          next_cell zero i cell rest a frames (omega (arith, e)) same sealed carried in
        let r = try_enqueue m s.hub session.slot_id packet s.queue_drops in
        run-going s (delivered s) a frames (
          turn-cell s a i (omega (arith, e)) off sealed'
          ∙ ap (pushed aead q f ed disk m session s) (
              push_complete id packet id8 whole i s.reassembler c (omega (arith, e))
                (omega (arith, e)))
          ∙ pushed_complete s r refl open_)
        ∙ run-aside (delivered s) frames off carried'
    run-collecting (suc n) i s (a ∷ frames) c e off open_
          (inr (cell, rest, same, sealed, carried)) =
        let (sealed', carried') =
          next_cell (suc n) i cell rest a frames (omega (arith, e)) same sealed carried in
        let (r', p, c') =
          push-Collected id packet id8 whole i s.reassembler c (omega (arith, e))
            (omega (arith, e)) in
        let s' : In = record s { reassembler = r' } in
        let forward : suc i ≡ i + 1 = omega arith in
        run-going s s' a frames (
          turn-cell s a i (omega (arith, e)) off sealed'
          ∙ ap (pushed aead q f ed disk m session s) p)
        ∙ run-collecting n (suc i) s' frames c' (omega (arith, e)) off open_ (
            subst (λ k. Carries aead session.session_key (fragment_from (suc n) k packet id) frames)
              (sym forward) carried')

  -- A packet of full length, cut under an id of 8 bytes, whose cells come in over the link in their
  -- order, each sealed under the session's key and with drop cells, loop cells, cover cells and cells
  -- without a command in between, with the rate limits off: the connection goes on, the packet is
  -- offered to the link's queue once, and nothing else of the connection has changed. This is for a
  -- connection that has no part of a packet yet and a queue that is not closed.
  pub run-delivers :
      (id : PacketId) (packet : List ℕ) (s : In) (frames : List Arrival)
      → length id ≡ 8
      → length packet ≡ sphinx_packet_len
      → s.reassembler ≡ new
      → is_active q s.rate_limit.config ≡ false
      → (try_enqueue m s.hub session.slot_id packet s.queue_drops).1.1 ≡ ok tt
      → Carries aead session.session_key (fragment packet id) frames
      → let r = try_enqueue m s.hub session.slot_id packet s.queue_drops in
        run aead q f ed disk m session s frames
        ≡ going (record s { reassembler = new; hub = r.0; queue_drops = r.1.0 })
  unfolding fragment
  run-delivers id packet s frames id8 whole fresh off open_ carried =
      run-collecting id packet id8 whole 17 0 s frames
        (subst (Collected id packet id8 whole 0) (sym fresh) (new-Collected id packet id8 whole))
        refl off open_ carried
