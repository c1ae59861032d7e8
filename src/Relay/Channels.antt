-- ===== src/Relay/Channels.antt =====
-- What the relay relies on of tokio's bounded `mpsc` channels, and the drop-newest policy of
-- crates/aegis-relay/src/node.rs on top of it.
--
-- A channel is one value for both of its ends. `try_send` and `try_recv` are parameters with their
-- documented behaviour: a channel is a queue, a full one refuses, and a closed one stays closed.
use anonymous.Common.Results.{Result, ok, err}
use anonymous.Common.{
  ℕ, ◌+◌, ◌%◌, ◌^◌, ◌≤◌, ◌<◌, ◌≡◌, List, [], ◌∷◌, ◌++◌, length, length-append, ap, ◌∙◌, arith, ◌≢◌,
  refl, ◌⊎◌, inl, inr,
}

pub data TrySend : Type 0 where
  accepted full closed : TrySend

pub data TryRecv (A : Type 0) : Type 0 where
  received : A → TryRecv A
  empty disconnected : TryRecv A

-- What a send leaves behind, for the queues before and after it.
abbrev pub SendLaw : {A : Type 0} → ℕ → List A → List A → A → TrySend → Type 0
SendLaw capacity before after a accepted = (length before < capacity) × (after ≡ before ++ (a ∷ []))
SendLaw capacity before after a full = (capacity ≤ length before) × (after ≡ before)
SendLaw capacity before after a closed = after ≡ before

abbrev pub RecvLaw : {A : Type 0} → List A → List A → TryRecv A → Type 0
RecvLaw before after (received a) = before ≡ a ∷ after
RecvLaw before after empty = (before ≡ []) × (after ≡ [])
RecvLaw before after disconnected = (before ≡ []) × (after ≡ [])

pub record Mpsc (A : Type 0) : Type 1 where
  pub Channel : Type 0
  pub new : ℕ → Channel
  pub try_send : Channel → A → TrySend × Channel
  pub try_recv : Channel → TryRecv A × Channel
  pub contents : Channel → List A
  pub capacity : Channel → ℕ
  pub contents-new : (n : ℕ) → contents (new n) ≡ []
  pub capacity-new : (n : ℕ) → capacity (new n) ≡ n
  pub try_send_law :
      (c : Channel) (a : A)
      → SendLaw (capacity c) (contents c) (contents (try_send c a).1) a (try_send c a).0
  pub try_recv_law : (c : Channel) → RecvLaw (contents c) (contents (try_recv c).1) (try_recv c).0
  pub capacity-try_send : (c : Channel) (a : A) → capacity (try_send c a).1 ≡ capacity c
  pub capacity-try_recv : (c : Channel) → capacity (try_recv c).1 ≡ capacity c

-- `counter.fetch_add(n)` on an `AtomicU64`, which wraps.
abbrev pub fetch_add : ℕ → ℕ → ℕ
fetch_add counter n = (counter + n) % 2 ^ 64

-- The error type `()`.
pub data ChannelClosed : Type 0 where
  channel_closed : ChannelClosed

module _ {A : Type 0} (m : Mpsc A) where
  pub record Sending : Type 0 where
    pub channel : m.Channel
    pub dropped : ℕ
    pub outcome : Result ChannelClosed (Unit {0})

  abbrev sending_of : ℕ → TrySend × m.Channel → Sending
  sending_of dropped (accepted, c) = record { channel = c; dropped = dropped; outcome = ok tt }
  sending_of dropped (full, c) = record {
    channel = c;
    dropped = fetch_add dropped 1;
    outcome = ok tt;
  }
  sending_of dropped (closed, c) = record {
    channel = c;
    dropped = dropped;
    outcome = err channel_closed;
  }

  -- A full channel drops the item and counts it; only a closed one is an error.
  pub try_send_drop_newest : m.Channel → A → ℕ → Sending
  try_send_drop_newest tx item dropped = sending_of dropped (m.try_send tx item)

  -- The item is behind the queue, dropped and counted, or refused with the channel closed.
  abbrev pub Enqueued : m.Channel → A → ℕ → Sending → Type 0
  Enqueued tx item dropped s =
      (m.capacity s.channel ≡ m.capacity tx)
      × (length (m.contents tx) ≤ m.capacity tx → length (m.contents s.channel) ≤ m.capacity tx)
      × (s.outcome ≡ ok tt
          → (length (m.contents s.channel) + s.dropped) % 2 ^ 64
            ≡ (length (m.contents tx) + dropped + 1) % 2 ^ 64)

  sending_of-Enqueued :
      (tx : m.Channel) (item : A) (dropped : ℕ) (o : TrySend) (c : m.Channel)
      → SendLaw (m.capacity tx) (m.contents tx) (m.contents c) item o
      → m.capacity c ≡ m.capacity tx
      → Enqueued tx item dropped (sending_of dropped (o, c))
  sending_of-Enqueued tx item dropped accepted c (room, e) same =
      let grown : length (m.contents c) ≡ length (m.contents tx) + 1 =
        ap length e ∙ length-append (m.contents tx) (item ∷ []) in
      (same, (λ h. omega (arith, grown, room)), (λ h. omega (arith, grown)))
  sending_of-Enqueued tx item dropped full c (crowded, e) same =
      let kept : length (m.contents c) ≡ length (m.contents tx) = ap length e in
      (same, (λ h. omega (arith, kept, h)), (λ h. omega (arith, kept)))
  sending_of-Enqueued tx item dropped closed c e same =
      let kept : length (m.contents c) ≡ length (m.contents tx) = ap length e in
      (same, (λ h. omega (arith, kept, h)), (λ h. cc))

  pub try_send_drop_newest-Enqueued :
      (tx : m.Channel) (item : A) (dropped : ℕ)
      → Enqueued tx item dropped (try_send_drop_newest tx item dropped)
  unfolding try_send_drop_newest
  try_send_drop_newest-Enqueued tx item dropped =
      sending_of-Enqueued tx item dropped (m.try_send tx item).0 (m.try_send tx item).1
        (m.try_send_law tx item) (m.capacity-try_send tx item)

  sending_of-open :
      (dropped : ℕ) (o : TrySend) (c : m.Channel)
      → o ≢ closed
      → (sending_of dropped (o, c)).outcome ≡ ok tt
  sending_of-open dropped accepted c h = refl
  sending_of-open dropped full c h = refl
  sending_of-open dropped closed c h = absurd (h refl)

  pub try_send_drop_newest-open :
      (tx : m.Channel) (item : A) (dropped : ℕ)
      → (m.try_send tx item).0 ≢ closed
      → (try_send_drop_newest tx item dropped).outcome ≡ ok tt
  unfolding try_send_drop_newest
  try_send_drop_newest-open tx item dropped h =
      sending_of-open dropped (m.try_send tx item).0 (m.try_send tx item).1 h

  sending_of-grows :
      (dropped : ℕ) (o : TrySend) (before : m.Channel) (c : m.Channel) (item : A)
      → SendLaw (m.capacity before) (m.contents before) (m.contents c) item o
      → (m.contents (sending_of dropped (o, c)).channel ≡ m.contents before)
        ⊎ (m.contents (sending_of dropped (o, c)).channel ≡ m.contents before ++ (item ∷ []))
  sending_of-grows dropped accepted before c item (_, e) = inr e
  sending_of-grows dropped full before c item (_, e) = inl e
  sending_of-grows dropped closed before c item e = inl e

  -- What was queued stays in front of what is queued now.
  pub try_send_drop_newest-grows :
      (tx : m.Channel) (item : A) (dropped : ℕ)
      → let c = (try_send_drop_newest tx item dropped).channel in
        (m.contents c ≡ m.contents tx) ⊎ (m.contents c ≡ m.contents tx ++ (item ∷ []))
  unfolding try_send_drop_newest
  try_send_drop_newest-grows tx item dropped =
      sending_of-grows dropped (m.try_send tx item).0 tx (m.try_send tx item).1 item
        (m.try_send_law tx item)
