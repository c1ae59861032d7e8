-- ===== src/Negotiator/Rounds.antt =====
-- Opt-ins gathered per round.
use anonymous.Common.Maps.{lookup, lookup-insert}
use mathlib.Core.List.{append_assoc, append-nil}
use anonymous.Common.{
  ℕ, ◌≡◌, refl, sym, ap, ◌∙◌, true, List, [], ◌∷◌, ◌++◌, arith, inl, inr, Bool-cases, ◌==◌,
  if◌then◌else◌,
}
use anonymous.Negotiator.{BatchScheduler, Commitment, entries_of, round_participants, opt_in}

-- The opt-ins of a history, one after the other.
unfoldable pub opt_in_all : BatchScheduler → List (Commitment × ℕ) → BatchScheduler
opt_in_all s [] = s
opt_in_all s (o ∷ os) = opt_in_all (opt_in s o.0 o.1) os

-- The commitments of a history that name `round`, in order.
unfoldable pub committed_to : ℕ → List (Commitment × ℕ) → List Commitment
committed_to round [] = []
committed_to round (o ∷ os) =
    if round == o.1 then o.0 ∷ committed_to round os else committed_to round os

participants-opt_in :
    (s : BatchScheduler) (c : Commitment) (r round : ℕ)
    → round_participants (opt_in s c r) round
      ≡ (if round == r then round_participants s r ++ (c ∷ []) else round_participants s round)
unfolding round_participants opt_in
participants-opt_in s c r round = elim (Bool-cases (round == r)) [
  | inl here ↦
      ground
        (arith, here, lookup-insert r round (entries_of (lookup r s.rounds) ++ (c ∷ [])) s.rounds)
  | inr there ↦
      ground
        (arith, there, lookup-insert r round (entries_of (lookup r s.rounds) ++ (c ∷ [])) s.rounds)
]

same_round :
    (s : BatchScheduler) (round r : ℕ)
    → (round == r) ≡ true
    → (c : Commitment) → round_participants s r ++ (c ∷ []) ≡ round_participants s round ++ (c ∷ [])
same_round s round r here c =
    let e : r ≡ round = ground (arith, here) in ap (λ i. round_participants s i ++ (c ∷ [])) e

-- A round's batch is exactly the commitments that named the round, in the order of their opt-ins,
-- behind those that were there, whatever opt-ins for other rounds stand between them.
pub round_participants-opt_in_all :
    (os : List (Commitment × ℕ)) (s : BatchScheduler) (round : ℕ)
    → round_participants (opt_in_all s os) round
      ≡ round_participants s round ++ committed_to round os
unfolding opt_in_all committed_to
round_participants-opt_in_all [] s round = sym (append-nil (round_participants s round))
round_participants-opt_in_all (o ∷ os) s round = elim (Bool-cases (round == o.1)) [
  | inl here ↦
      round_participants-opt_in_all os (opt_in s o.0 o.1) round
      ∙ rw here (
          ap (λ l. l ++ committed_to round os)
            (participants-opt_in s o.0 o.1 round ∙ rw here (same_round s round o.1 here o.0))
          ∙ append_assoc (round_participants s round) (o.0 ∷ []) (committed_to round os))
  | inr there ↦
      round_participants-opt_in_all os (opt_in s o.0 o.1) round
      ∙ rw there (
          ap (λ l. l ++ committed_to round os)
            (participants-opt_in s o.0 o.1 round ∙ rw there refl))
]
