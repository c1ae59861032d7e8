-- ===== src/Relay/Limits.antt =====
-- crates/aegis-relay/src/net.rs: the limits on the frames of a connection and of all together.
--
-- The arithmetic of the token buckets on f64 is the parameter `Rates`. The global bucket, which a
-- mutex guards, is read and given back by each call.
use anonymous.Common.{ℕ, ◌-◌, Bool, true, false, not, ◌||◌, Option, none, some, max, if◌then◌else◌}
use anonymous.Relay.Channels.{fetch_add}

abbrev pub default_ingress_burst : ℕ
default_ingress_burst = 4

-- What the buckets take from f64 and from `Instant`, a number of nanoseconds.
pub record Rates : Type 1 where
  pub F : Type 0
  pub nought : F
  pub of_u32 : ℕ → F
  pub is_positive : F → Bool
  pub le : F → F → Bool
  pub plus : F → F → F
  pub minus : F → F → F
  pub times : F → F → F
  pub least : F → F → F
  pub seconds : ℕ → F

module _ (q : Rates) where
  pub record IngressRateLimitConfig : Type 0 where
    pub max_cells_per_sec : q.F
    pub burst : ℕ
    pub global_max_cells_per_sec : Option q.F

  abbrev pub disabled : IngressRateLimitConfig
  disabled = record { max_cells_per_sec = q.nought; burst = 0; global_max_cells_per_sec = none }

  abbrev is_positive_some : Option q.F → Bool
  is_positive_some none = false
  is_positive_some (some r) = q.is_positive r

  abbrev pub is_active : IngressRateLimitConfig → Bool
  is_active c = q.is_positive c.max_cells_per_sec || is_positive_some c.global_max_cells_per_sec

  pub record TokenBucket : Type 0 where
    pub rate : q.F
    pub capacity : q.F
    pub tokens : q.F
    pub last_refill : ℕ

  abbrev pub TokenBucket_new : q.F → ℕ → ℕ → TokenBucket
  TokenBucket_new rate burst now = record {
    rate = rate;
    capacity = q.of_u32 (max burst 1);
    tokens = q.of_u32 (max burst 1);
    last_refill = now;
  }

  abbrev pub refill : ℕ → TokenBucket → TokenBucket
  refill now b =
      let elapsed = q.seconds (now - b.last_refill) in
      if q.is_positive elapsed
      then record b {
        tokens = q.least (q.plus b.tokens (q.times elapsed b.rate)) b.capacity;
        last_refill = now;
      }
      else b

  unfoldable pub try_consume : ℕ → ℕ → TokenBucket → Bool × TokenBucket
  try_consume now n b =
      if not (q.is_positive b.rate)
      then (true, b)
      else let b = refill now b in
        if q.le (q.of_u32 n) b.tokens
        then (true, record b { tokens = q.minus b.tokens (q.of_u32 n) })
        else (false, b)

  pub record InboundRateLimitState : Type 0 where
    pub local : TokenBucket
    pub global : Option TokenBucket
    pub dropped_frames : ℕ
    pub config : IngressRateLimitConfig

  abbrev pub InboundRateLimitState_new :
      IngressRateLimitConfig → ℕ → Option TokenBucket → ℕ → InboundRateLimitState
  InboundRateLimitState_new config dropped global now = record {
    local =
        if q.is_positive config.max_cells_per_sec
        then TokenBucket_new config.max_cells_per_sec config.burst now
        else TokenBucket_new q.nought 0 now;
    global = global;
    dropped_frames = dropped;
    config = config;
  }

  abbrev record_drop : InboundRateLimitState → Bool × InboundRateLimitState
  record_drop s = (false, record s { dropped_frames = fetch_add s.dropped_frames 1 })

  -- The part of `allow_frame` behind the local bucket.
  abbrev ask_global : ℕ → InboundRateLimitState → Option TokenBucket → Bool × InboundRateLimitState
  ask_global now s none = (true, s)
  ask_global now s (some bucket) =
      let (given, bucket) = try_consume now 1 bucket in
      let s = record s { global = some bucket } in if given then (true, s) else record_drop s

  -- The local bucket, and the global one if it gave a token.
  abbrev ask_local : ℕ → InboundRateLimitState → Bool × InboundRateLimitState
  ask_local now s =
      let (given, local) = try_consume now 1 s.local in
      let s = record s { local = local } in
      let rest = ask_global now s s.global in if given then rest else record_drop s

  unfoldable pub allow_frame : ℕ → InboundRateLimitState → Bool × InboundRateLimitState
  allow_frame now s =
      if not (is_active s.config)
      then (true, s)
      else if q.is_positive s.config.max_cells_per_sec
      then ask_local now s
      else ask_global now s s.global
