-- ===== src/Relay/Health/QuorumLog/Once.antt =====
-- A reporter speaks once in an epoch, and a subject's reports of an epoch are merged once.
use anonymous.Common.Results.{Result, ok, err}
use anonymous.Common.Tables.{
  find, put, member, member-include, find-put_same, same_refl, same-false, bytes_key, pair_key,
  nat_key,
}
use anonymous.Common.{
  ℕ, ◌≡◌, ◌≢◌, refl, sym, ap, ◌∙◌, ◌⊎◌, inl, inr, Bool, true, false, some, List, Bool-cases, ltb,
  length,
}
use mathlib.Core.Path.{subst}
use anonymous.Relay.Health.{
  Report, GossipMergeOutcome, observations_of, diversity_of, reports_or_new, apply_quorum_median,
}
use anonymous.Relay.Rates.{Floats}
use anonymous.Relay.Labels.{PeerId}
use anonymous.Relay.Health.Advert.{Ed25519, verify}
use anonymous.Relay.Health.QuorumLog.{
  QuorumLogError, conflicting_advert, io_error, QuorumAppendOutcome, duplicate, log_applied,
  log_quarantined, PendingKey, Disk, is_authority, Appended, refused, settle, collect,
  append_verified,
}
use anonymous.Relay.Health.QuorumLog.Append.{
  Arrival, seen_key, pending_key, payload, report_of, Log, Tracker, arrive, arrivals, arrive-cases,
}
use anonymous.Relay.Health.QuorumLog.Extends.{
  collect-Extends, arrive-Extends, arrivals-Extends, is_authority-Extends,
}

module _ (disk : Disk) (f : Floats) (ed : Ed25519) where
  -- The result of an append that merged or quarantined.
  abbrev pub IsMerge : Result QuorumLogError QuorumAppendOutcome → Type 0
  IsMerge (ok (log_applied reporters orgs)) = Unit
  IsMerge (ok (log_quarantined reporters orgs)) = Unit
  IsMerge _ = ⊥

  -- An arrival with a result that is no error has its payload in the log, from an authority.
  arrive-Seen :
      (log : Log disk f ed) (tracker : Tracker disk f ed) (a : Arrival disk f ed)
      (o : QuorumAppendOutcome)
      → (arrive disk f ed log tracker a).result ≡ ok o
      → (find (seen_key disk f ed a) (arrive disk f ed log tracker a).log.seen
          ≡ some (payload disk f ed a))
        × (is_authority disk log a.advert.reporter ≡ true)
  arrive-Seen log tracker a o e = elim (arrive-cases disk f ed log tracker a) [
    | inl i ↦ elim i.refusal [
      | inl (x, bad) ↦ absurd (ok_err o x (sym e ∙ bad))
      | inr (_, known, listed) ↦
          (ap (λ l. find (seen_key disk f ed a) l.seen) i.same_log ∙ known, listed)
    ]
    | inr (_, _, listed, (noted, n, outcome)) ↦
        let there : find (seen_key disk f ed a) noted.seen ≡ some (payload disk f ed a) =
          ap (find (seen_key disk f ed a)) n.seen
          ∙ find-put_same (seen_key disk f ed a) (payload disk f ed a) log.seen in
        elim outcome [
          | inl (same, _, _) ↦ (ap (λ l. find (seen_key disk f ed a) l.seen) same ∙ there, listed)
          | inr (_, same) ↦
              let grown =
                collect-Extends disk f ed noted tracker (pending_key disk f ed a) a.advert.reporter
                  (report_of disk f ed a) in
              (
                ap (λ r. find (seen_key disk f ed a) r.log.seen) same
                    ∙ grown.seen_kept (seen_key disk f ed a) (payload disk f ed a) there,
                listed,
              )
        ]
  ]
    where
      ok_err :
          (o : QuorumAppendOutcome) (x : QuorumLogError)
          → ◌≢◌ {A = Result QuorumLogError QuorumAppendOutcome} (ok o) (err x)
      ok_err o x same = cc

  module _ (log : Log disk f ed) (tracker : Tracker disk f ed) (a b : Arrival disk f ed)
      (rest : List (Arrival disk f ed)) where
    abbrev first : Appended disk f
    first = arrive disk f ed log tracker a

    abbrev then_ : Log disk f ed × Tracker disk f ed
    then_ = arrivals disk f ed rest first.log first.tracker

    -- After a report was taken into the log, and whatever arrives in between, another report of the
    -- same epoch, reporter and subject with other counts and a valid signature is refused as
    -- conflicting, and changes neither the log nor the tracker.
    pub conflicting_report :
        (o : QuorumAppendOutcome)
        → (arrive disk f ed log tracker a).result ≡ ok o
        → seen_key disk f ed b ≡ seen_key disk f ed a
        → payload disk f ed b ≢ payload disk f ed a
        → verify ed b.advert b.verifying_key ≡ ok tt
        → let r = arrive disk f ed log tracker a in
          let (log', tracker') = arrivals disk f ed rest r.log r.tracker in
          arrive disk f ed log' tracker' b ≡ refused disk f log' tracker' conflicting_advert
    unfolding append_verified
    conflicting_report o taken same other valid =
        let (there, listed) = arrive-Seen log tracker a o taken in
        let grown = arrivals-Extends disk f ed rest first.log first.tracker in
        let known : find (seen_key disk f ed b) then_.0.seen ≡ some (payload disk f ed a) =
          ap (λ k. find k then_.0.seen) same
          ∙ grown.seen_kept (seen_key disk f ed a) (payload disk f ed a) there in
        let reporter : b.advert.reporter ≡ a.advert.reporter = ap (λ k. k.1.0) same in
        let listed' : is_authority disk then_.0 b.advert.reporter ≡ true =
          is_authority-Extends disk f ed first.log then_.0 b.advert.reporter grown
          ∙ is_authority-Extends disk f ed log first.log b.advert.reporter
              (arrive-Extends disk f ed log tracker a)
          ∙ ap (is_authority disk log) reporter
          ∙ listed in
        let differs : pair_key.same (payload disk f ed a) (payload disk f ed b) ≡ false =
          same-false (payload disk f ed a) (payload disk f ed b) (λ e. other (sym e)) in
        rw (valid, append_verified) (rw (listed', known) (rw differs refl))

  settle-IsMerge :
      (log : Log disk f ed) (key : PendingKey) (obs : List (ℕ × ℕ))
      (m : Tracker disk f ed × GossipMergeOutcome)
      → IsMerge (settle disk f log key obs m).result
      → member key (settle disk f log key obs m).log.applied ≡ true
  settle-IsMerge log key obs (t, GossipMergeOutcome.waiting_diversity h o n) merge = absurd merge
  settle-IsMerge log key obs (t, GossipMergeOutcome.buffered h n) merge = absurd merge
  settle-IsMerge log key obs (t, GossipMergeOutcome.quarantined r o) merge =
      member-include key key log.applied ∙ rw (same_refl key) refl
  settle-IsMerge log key obs (t, GossipMergeOutcome.applied r o) merge =
      member-include key key log.applied ∙ rw (same_refl key) refl

  collect-IsMerge :
      (log : Log disk f ed) (tracker : Tracker disk f ed) (key : PendingKey) (reporter : PeerId)
      (report : Report)
      → IsMerge (collect disk f log tracker key reporter report).result
      → member key (collect disk f log tracker key reporter report).log.applied ≡ true
  unfolding collect
  collect-IsMerge log tracker key reporter report =
      let reports = put reporter report (reports_or_new (find key log.pending)) in
      let kept : Log disk f ed = record log { pending = put key reports log.pending } in
      elim (Bool-cases (ltb (length reports) log.majority_k)) [
        | inl few ↦ rw few (λ never. absurd never)
        | inr enough ↦ rw enough (
            settle-IsMerge kept key (observations_of reports) (
              apply_quorum_median f tracker key.1 (observations_of reports) (diversity_of reports)))
      ]

  not-IsMerge :
      (r : Result QuorumLogError QuorumAppendOutcome)
      → (((e : QuorumLogError) × (r ≡ err e)) ⊎ (r ≡ ok duplicate))
      → ¬ IsMerge r
  not-IsMerge r (inl (e, same)) merge = subst IsMerge same merge
  not-IsMerge r (inr same) merge = subst IsMerge same merge

  arrive-IsMerge :
      (log : Log disk f ed) (tracker : Tracker disk f ed) (a : Arrival disk f ed)
      → IsMerge (arrive disk f ed log tracker a).result
      → member (pending_key disk f ed a) (arrive disk f ed log tracker a).log.applied ≡ true
  arrive-IsMerge log tracker a merge = elim (arrive-cases disk f ed log tracker a) [
    | inl i ↦ elim i.refusal [
      | inl bad ↦ absurd (not-IsMerge _ (inl bad) merge)
      | inr (known, _, _) ↦ absurd (not-IsMerge _ (inr known) merge)
    ]
    | inr (_, _, _, (noted, n, outcome)) ↦ elim outcome [
      | inl (_, _, inl bad) ↦ absurd (not-IsMerge _ (inl (io_error, bad)) merge)
      | inl (_, _, inr known) ↦ absurd (not-IsMerge _ (inr known) merge)
      | inr (_, same) ↦
          subst (λ r. member (pending_key disk f ed a) r.log.applied ≡ true) (sym same)
            (collect-IsMerge noted tracker (pending_key disk f ed a) a.advert.reporter
              (report_of disk f ed a) (subst (λ r. IsMerge r.result) same merge))
    ]
  ]

  -- An arrival for a subject whose reports of the epoch were merged merges nothing.
  arrive_applied :
      (log : Log disk f ed) (tracker : Tracker disk f ed) (b : Arrival disk f ed)
      → member (pending_key disk f ed b) log.applied ≡ true
      → let r = arrive disk f ed log tracker b in
        (r.tracker ≡ tracker) × (r.log.applied_medians ≡ log.applied_medians) × (¬ IsMerge r.result)
  arrive_applied log tracker b done = elim (arrive-cases disk f ed log tracker b) [
    | inl i ↦
        let why : ¬ IsMerge (arrive disk f ed log tracker b).result = elim i.refusal [
          | inl bad ↦ not-IsMerge (arrive disk f ed log tracker b).result (inl bad)
          | inr (known, _, _) ↦ not-IsMerge (arrive disk f ed log tracker b).result (inr known)
        ] in
        (i.same_tracker, ap (λ l. l.applied_medians) i.same_log, why)
    | inr (_, _, _, (noted, n, outcome)) ↦ elim outcome [
      | inl (same, kept, inl bad) ↦
          (kept, ap (λ l. l.applied_medians) same ∙ n.medians, not-IsMerge _ (inl (io_error, bad)))
      | inl (same, kept, inr known) ↦
          (kept, ap (λ l. l.applied_medians) same ∙ n.medians, not-IsMerge _ (inr known))
      | inr (fresh, _) ↦
          absurd (false_true (sym fresh ∙ ap (member (pending_key disk f ed b)) n.applied ∙ done))
    ]
  ]
    where
      false_true : ◌≢◌ {A = Bool} false true
      false_true e = cc

  -- Once the reports of a subject in an epoch were merged or quarantined, and whatever arrives in
  -- between, no later report of that subject and epoch is merged or quarantined, and none changes
  -- the tracker or the accepted medians.
  pub merged_once :
      (log : Log disk f ed) (tracker : Tracker disk f ed) (a b : Arrival disk f ed)
      (rest : List (Arrival disk f ed))
      → IsMerge (arrive disk f ed log tracker a).result
      → pending_key disk f ed b ≡ pending_key disk f ed a
      → let r = arrive disk f ed log tracker a in
        let (log', tracker') = arrivals disk f ed rest r.log r.tracker in
        let r' = arrive disk f ed log' tracker' b in
        (r'.tracker ≡ tracker')
        × (r'.log.applied_medians ≡ log'.applied_medians)
        × (¬ IsMerge r'.result)
  merged_once log tracker a b rest merge same =
      let r = arrive disk f ed log tracker a in
      let after = arrivals disk f ed rest r.log r.tracker in
      let grown = arrivals-Extends disk f ed rest r.log r.tracker in
      arrive_applied after.0 after.1 b (
        ap (λ k. member k after.0.applied) same
        ∙ grown.applied_kept (pending_key disk f ed a) (arrive-IsMerge log tracker a merge))
