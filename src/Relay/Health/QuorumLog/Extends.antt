-- ===== src/Relay/Health/QuorumLog/Extends.antt =====
-- What no arrival takes back of a log.
use anonymous.Common.Tables.{
  find, put, member, include, member-include, find-put_other, bytes_key, pair_key, nat_key,
}
use anonymous.Common.{
  ℕ, ◌≡◌, ◌≢◌, refl, sym, ap, ◌∙◌, inl, inr, true, Option, none, some, List, [], ◌∷◌, Bool-cases,
  ltb, length, if◌then◌else◌, ◌==◌,
}
use mathlib.Core.Path.{subst}
use anonymous.Relay.Health.{
  Report, GossipMergeOutcome, observations_of, diversity_of, reports_or_new, apply_quorum_median,
}
use anonymous.Relay.Rates.{Floats}
use anonymous.Relay.Labels.{PeerId}
use anonymous.Relay.Health.Advert.{Ed25519}
use anonymous.Relay.Health.QuorumLog.{PendingKey, SeenKey, Disk, is_authority, settle, collect}
use anonymous.Relay.Health.QuorumLog.Append.{
  Arrival, seen_key, pending_key, payload, report_of, Log, Tracker, arrive, arrivals, Noted,
  arrive-cases,
}

module _ (disk : Disk) (f : Floats) (ed : Ed25519) where
  -- What an arrival leaves of the log before it.
  pub record Extends (before after : Log disk f ed) : Type 0 where
    pub same_k : after.majority_k ≡ before.majority_k
    pub same_authorities : after.authority_set ≡ before.authority_set
    pub seen_kept :
        (key : SeenKey) (p : ℕ × ℕ) → find key before.seen ≡ some p → find key after.seen ≡ some p
    pub applied_kept :
        (key : PendingKey) → member key before.applied ≡ true → member key after.applied ≡ true

  Extends-refl : (log : Log disk f ed) → Extends log log
  Extends-refl log = record {
    same_k = refl;
    same_authorities = refl;
    seen_kept = λ key p h. h;
    applied_kept = λ key h. h;
  }

  Extends-trans : (x y z : Log disk f ed) → Extends x y → Extends y z → Extends x z
  Extends-trans x y z e f = record {
    same_k = f.same_k ∙ e.same_k;
    same_authorities = f.same_authorities ∙ e.same_authorities;
    seen_kept = λ key p h. f.seen_kept key p (e.seen_kept key p h);
    applied_kept = λ key h. f.applied_kept key (e.applied_kept key h);
  }

  pub Noted-Extends :
      (log noted : Log disk f ed) (a : Arrival disk f ed)
      → find (seen_key disk f ed a) log.seen ≡ none
      → Noted disk f ed log noted a
      → Extends log noted
  Noted-Extends log noted a fresh n = record {
    same_k = n.majority_k;
    same_authorities = n.authority_set;
    seen_kept = λ key p h.
        let other : key ≢ seen_key disk f ed a =
          λ e. absurd (none_some p (sym fresh ∙ ap (λ x. find x log.seen) (sym e) ∙ h)) in
        ap (find key) n.seen
        ∙ find-put_other (seen_key disk f ed a) key (payload disk f ed a) log.seen other
        ∙ h;
    applied_kept = λ key h. ap (member key) n.applied ∙ h;
  }
    where
      none_some : (p : ℕ × ℕ) → ◌≢◌ {A = Option (ℕ × ℕ)} none (some p)
      none_some p e = cc

  include_keeps :
      (key other : PendingKey) (keys : List PendingKey)
      → member key keys ≡ true
      → member key (include other keys) ≡ true
  include_keeps key other keys h =
      member-include key other keys
      ∙ elim (Bool-cases (pair_key.same key other)) [ inl e ↦ rw e refl | inr e ↦ rw (e, h) refl ]

  settle-Extends :
      (log : Log disk f ed) (key : PendingKey) (obs : List (ℕ × ℕ))
      (m : (Tracker disk f ed) × GossipMergeOutcome)
      → Extends log (settle disk f log key obs m).log
  settle-Extends log key obs (t, GossipMergeOutcome.waiting_diversity h o n) = Extends-refl log
  settle-Extends log key obs (t, GossipMergeOutcome.buffered h n) = Extends-refl log
  settle-Extends log key obs (t, GossipMergeOutcome.quarantined r o) = record {
    same_k = refl;
    same_authorities = refl;
    seen_kept = λ k p h. h;
    applied_kept = λ k h. include_keeps k key log.applied h;
  }
  settle-Extends log key obs (t, GossipMergeOutcome.applied r o) = record {
    same_k = refl;
    same_authorities = refl;
    seen_kept = λ k p h. h;
    applied_kept = λ k h. include_keeps k key log.applied h;
  }

  pub collect-Extends :
      (log : Log disk f ed) (tracker : Tracker disk f ed) (key : PendingKey) (reporter : PeerId)
      (report : Report)
      → Extends log (collect disk f log tracker key reporter report).log
  unfolding collect
  collect-Extends log tracker key reporter report =
      let reports = put reporter report (reports_or_new (find key log.pending)) in
      let kept : (Log disk f ed) = record log { pending = put key reports log.pending } in
      let moved : Extends log kept = record {
        same_k = refl;
        same_authorities = refl;
        seen_kept = λ k p h. h;
        applied_kept = λ k h. h;
      } in
      elim (Bool-cases (ltb (length reports) log.majority_k)) [
        | inl few ↦ rw few moved
        | inr enough ↦
            let merge =
              apply_quorum_median f tracker key.1 (observations_of reports)
                (diversity_of reports) in
            rw enough (
              Extends-trans log kept (settle disk f kept key (observations_of reports) merge).log
                moved (settle-Extends kept key (observations_of reports) merge))
      ]

  pub arrive-Extends :
      (log : Log disk f ed) (tracker : Tracker disk f ed) (a : Arrival disk f ed)
      → Extends log (arrive disk f ed log tracker a).log
  arrive-Extends log tracker a = elim (arrive-cases disk f ed log tracker a) [
    | inl i ↦ subst (Extends log) (sym i.same_log) (Extends-refl log)
    | inr (fresh, _, _, (noted, n, outcome)) ↦
        let start = Noted-Extends log noted a fresh n in
        elim outcome [
          | inl (same, _, _) ↦ subst (Extends log) (sym same) start
          | inr (_, same) ↦ Extends-trans log noted (arrive disk f ed log tracker a).log start (
              subst (λ r. Extends noted r.log) (sym same)
                (collect-Extends noted tracker (pending_key disk f ed a) a.advert.reporter
                  (report_of disk f ed a)))
        ]
  ]

  pub arrivals-Extends :
      (as_ : List (Arrival disk f ed)) (log : Log disk f ed) (tracker : Tracker disk f ed)
      → Extends log (arrivals disk f ed as_ log tracker).0
  unfolding arrivals
  arrivals-Extends [] log tracker = Extends-refl log
  arrivals-Extends (a ∷ rest) log tracker =
      let r = arrive disk f ed log tracker a in
      Extends-trans log r.log (arrivals disk f ed rest r.log r.tracker).0
        (arrive-Extends log tracker a) (arrivals-Extends rest r.log r.tracker)

  pub is_authority-Extends :
      (before after : Log disk f ed) (id : PeerId)
      → Extends before after
      → is_authority disk after id ≡ is_authority disk before id
  unfolding is_authority
  is_authority-Extends before after id e =
      ap (λ s. if length s == 0 then true else member id s) e.same_authorities
