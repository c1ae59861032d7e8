-- ===== src/Client/Padding/Tests.antt =====
-- The padder's theorems on a cap of two with a burst of three.
use anonymous.Common.{ℕ, ◌≡◌, [], ◌∷◌, ◌++◌}
use anonymous.Client.Padding.{HardCapPadder}
use anonymous.Client.Padding.Rounds.{rounds, arrivals, rounds-Fifo}

abbrev padder : HardCapPadder ℕ
padder = record {
  q = 2;
  pending = 5 ∷ 6 ∷ 7 ∷ [];
  round = 0;
  last_real_count = 0;
  last_dummy_count = 0;
}

rounds-Fifo_example :
    (rounds padder ((8 ∷ []) ∷ [] ∷ [])).0 ++ (rounds padder ((8 ∷ []) ∷ [] ∷ [])).1.pending
    ≡ padder.pending ++ arrivals ((8 ∷ []) ∷ [] ∷ [])
rounds-Fifo_example = rounds-Fifo ((8 ∷ []) ∷ [] ∷ []) padder
