-- ===== src/Client/Padding.antt =====
-- crates/aegis-client/src/padding.rs: a receiver that shows exactly `q` deliveries every round.
--
-- The deferral figure and the batch analysis are arithmetic on f64 and not modelled.
pub mod Rounds
mod Tests
use anonymous.Common.{ℕ, zero, suc, ◌+◌, ◌-◌, ◌%◌, ◌^◌, List, [], ◌∷◌, ◌++◌, length, replicate}

pub data DeliverySlot (T : Type 0) : Type 0 where
  real : T → DeliverySlot T
  dummy : DeliverySlot T

pub record RoundOutput (T : Type 0) : Type 0 where
  pub round : ℕ
  pub slots : List (DeliverySlot T)
  pub real_count : ℕ
  pub dummy_count : ℕ

pub record HardCapPadder (T : Type 0) : Type 0 where
  pub q : ℕ
  pub pending : List T
  pub round : ℕ
  pub last_real_count : ℕ
  pub last_dummy_count : ℕ

module _ {T : Type 0} where
  pub HardCapPadder_new : ℕ → HardCapPadder T
  HardCapPadder_new q = record {
    q = q;
    pending = [];
    round = 0;
    last_real_count = 0;
    last_dummy_count = 0;
  }

  unfoldable pub deliver_real : HardCapPadder T → T → HardCapPadder T
  deliver_real h item = record h { pending = h.pending ++ (item ∷ []) }

  unfoldable pub backlog : HardCapPadder T → ℕ
  backlog h = length h.pending

  -- `for _ in 0..q`: a slot each, and what stays pending.
  pub fill_slots : ℕ → List T → List (DeliverySlot T) × List T
  fill_slots zero pending = ([], pending)
  fill_slots (suc n) [] = let (slots, rest) = fill_slots n [] in (dummy ∷ slots, rest)
  fill_slots (suc n) (item ∷ pending) =
      let (slots, rest) = fill_slots n pending in (real item ∷ slots, rest)

  -- `slots.iter().filter(|s| matches!(s, DeliverySlot::Real(_))).count()`.
  pub count_real : List (DeliverySlot T) → ℕ
  count_real [] = 0
  count_real (real item ∷ slots) = suc (count_real slots)
  count_real (dummy ∷ slots) = count_real slots

  -- `q` is a u32, so the counts are too.
  pub round_tick : HardCapPadder T → RoundOutput T × HardCapPadder T
  round_tick h =
      let (slots, pending) = fill_slots h.q h.pending in
      let real_count = count_real slots in
      let dummy_count = h.q - real_count in
      (
        record {
          round = h.round;
          slots = slots;
          real_count = real_count;
          dummy_count = dummy_count;
        },
        record h {
          pending = pending;
          round = (h.round + 1) % 2 ^ 64;
          last_real_count = real_count;
          last_dummy_count = dummy_count;
        },
      )

-- `CountHardCapPadder::arrive`.
pub arrive : HardCapPadder (Unit {0}) → ℕ → HardCapPadder (Unit {0})
arrive h zero = h
arrive h (suc n) = arrive (deliver_real h tt) n
