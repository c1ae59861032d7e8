-- ===== src/Relay/Health/QuorumLog/Quorum.antt =====
-- Whose reports a merge rests on.
use anonymous.Common.Sums.{All}
use anonymous.Common.Tables.{
  find, put, erase, find-put_same, keys_of, Distinct, Distinct-put, All-put, All-erase, All-find,
  distinct_count, bytes_key, pair_key, nat_key,
}
use anonymous.Common.{
  ℕ, ◌≤◌, ◌≡◌, refl, sym, ap, ◌∙◌, ◌⊎◌, inl, inr, true, some, List, [], ◌∷◌, arith, Bool-cases,
  Option-cases, ltb, length,
}
use mathlib.Core.Path.{subst}
use mathlib.Core.List.{Memᴰ}
use anonymous.Common.Results.{ok}
use anonymous.Relay.Health.{
  Report, Reports, GossipMergeOutcome, observations_of, diversity_of, reports_or_new,
  apply_quorum_median, finish_median_merge,
}
use anonymous.Relay.Rates.{Floats}
use anonymous.Relay.Labels.{PeerId}
use anonymous.Relay.Health.Advert.{Ed25519, verify}
use anonymous.Relay.Health.QuorumLog.{PendingKey, Disk, is_authority, settle, collect}
use anonymous.Relay.Health.QuorumLog.Append.{
  Arrival, seen_key, pending_key, payload, report_of, Log, Tracker, arrive, arrivals, arrive-cases,
}
use anonymous.Relay.Health.QuorumLog.Extends.{
  collect-Extends, Extends, Noted-Extends, is_authority-Extends,
}

module _ (disk : Disk) (f : Floats) (ed : Ed25519) where
  -- A signed report among those that arrived, on the epoch and the subject of `key`: the reporter
  -- and the report with the label that it came with.
  abbrev pub HasArrived : List (Arrival disk f ed) → PendingKey → PeerId × Report → Type 0
  HasArrived arrived key e =
      (b : Arrival disk f ed) × Memᴰ b arrived
      × (verify ed b.advert b.verifying_key ≡ ok tt)
      × (pending_key disk f ed b ≡ key)
      × (b.advert.reporter ≡ e.0)
      × (report_of disk f ed b ≡ e.1)

  -- The report arrived with its label, and its counts stand in the log under its reporter, who is an
  -- authority.
  abbrev pub IsRecorded :
      List (Arrival disk f ed) → Log disk f ed → PendingKey → PeerId × Report → Type 0
  IsRecorded arrived log key e =
      (is_authority disk log e.0 ≡ true)
      × (find (key.0, (e.0, key.1)) log.seen ≡ some (e.1.successes, e.1.failures))
      × HasArrived arrived key e

  -- Different authorities, and what the log recorded from each.
  abbrev pub IsSound : List (Arrival disk f ed) → Log disk f ed → PendingKey × Reports → Type 0
  IsSound arrived log e = Distinct (keys_of e.1) × All (IsRecorded arrived log e.0) e.1

  All-mono {ℓ m n} :
      {A : Type ℓ} (P : A → Type m) (Q : A → Type n) (xs : List A)
      → ((x : A) → P x → Q x)
      → All P xs
      → All Q xs
  All-mono P Q [] g a = tt
  All-mono P Q (x ∷ xs) g (h, a) = (g x h, All-mono P Q xs g a)

  All-Memᴰ {ℓ} : {A : Type ℓ} (xs : List A) → All (λ a. Memᴰ a xs) xs
  All-Memᴰ [] = tt
  All-Memᴰ (x ∷ xs) = (
    Memᴰ.head refl,
    All-mono (λ a. Memᴰ a xs) (λ a. Memᴰ a (x ∷ xs)) xs (λ a. Memᴰ.tail) (All-Memᴰ xs),
  )

  IsSound-Extends :
      (arrived : List (Arrival disk f ed)) (before after : Log disk f ed) (e : PendingKey × Reports)
      → Extends disk f ed before after
      → IsSound arrived before e
      → IsSound arrived after e
  IsSound-Extends arrived before after (key, reports) x (different, recorded) = (
    different,
    All-mono (IsRecorded arrived before key) (IsRecorded arrived after key) reports
        (λ e h. (
          is_authority-Extends disk f ed before after e.0 x ∙ h.0,
          x.seen_kept (key.0, (e.0, key.1)) (e.1.successes, e.1.failures) h.1,
          h.2,
        ))
        recorded,
  )

  -- A quorum: the reports that a merge of `key` rests on, and the tracker `after` it.
  pub record Quorum (arrived : List (Arrival disk f ed)) (log : Log disk f ed)
      (tracker after : Tracker disk f ed) (key : PendingKey) : Type 0 where
    pub reports : Reports
    pub different : Distinct (keys_of reports)
    pub recorded : All (IsRecorded arrived log key) reports
    pub enough : log.majority_k ≤ length reports
    pub diverse : tracker.policy.min_orgs ≤ distinct_count (diversity_of reports)
    pub merged :
        after
        ≡ (finish_median_merge f tracker key.1
            (observations_of reports)
            (length (observations_of reports))
            (distinct_count (diversity_of reports))).0

  apply_quorum_median-Diverse :
      (t : Tracker disk f ed) (subject : PeerId) (reports : Reports)
      → let obs = observations_of reports in
        let orgs = distinct_count (diversity_of reports) in
        let after = (apply_quorum_median f t subject obs (diversity_of reports)).0 in
        (after ≡ t)
        ⊎ ((after ≡ (finish_median_merge f t subject obs (length obs) orgs).0)
            × (t.policy.min_orgs ≤ orgs))
  unfolding apply_quorum_median
  apply_quorum_median-Diverse t subject reports =
      let orgs = distinct_count (diversity_of reports) in
      elim (Bool-cases (ltb orgs t.policy.min_orgs)) [
        | inl few ↦ inl (rw few refl)
        | inr enough ↦ inr (rw enough refl, ground (arith, enough))
      ]

  settle_parts :
      (log : Log disk f ed) (key : PendingKey) (obs : List (ℕ × ℕ))
      (m : Tracker disk f ed × GossipMergeOutcome)
      → ((settle disk f log key obs m).tracker ≡ m.0)
        × (((settle disk f log key obs m).log.pending ≡ log.pending)
            ⊎ ((settle disk f log key obs m).log.pending ≡ erase key log.pending))
  settle_parts log key obs (t, GossipMergeOutcome.waiting_diversity h o n) = (refl, inl refl)
  settle_parts log key obs (t, GossipMergeOutcome.buffered h n) = (refl, inl refl)
  settle_parts log key obs (t, GossipMergeOutcome.quarantined r o) = (refl, inr refl)
  settle_parts log key obs (t, GossipMergeOutcome.applied r o) = (refl, inr refl)

  -- With pending reports that are sound, and a new one that is, the next are sound and a change of
  -- the tracker has a quorum.
  collect-Sound :
      (arrived : List (Arrival disk f ed)) (log : Log disk f ed) (tracker : Tracker disk f ed)
      (key : PendingKey) (reporter : PeerId) (report : Report)
      → All (IsSound arrived log) log.pending
      → IsRecorded arrived log key (reporter, report)
      → let r = collect disk f log tracker key reporter report in
        All (IsSound arrived log) r.log.pending
        × ((r.tracker ≡ tracker) ⊎ Quorum arrived log tracker r.tracker key)
  unfolding collect Distinct
  collect-Sound arrived log tracker key reporter report sound new =
      let old = reports_or_new (find key log.pending) in
      let old_sound : IsSound arrived log (key, old) = elim (Option-cases (find key log.pending)) [
        | inl e ↦ rw (e, Distinct) (tt, tt)
        | inr (reports, e) ↦ rw e (All-find (IsSound arrived log) key reports log.pending sound e)
      ] in
      let reports = put reporter report old in
      let next : IsSound arrived log (key, reports) = (
        Distinct-put reporter report old old_sound.0,
        All-put (IsRecorded arrived log key) reporter report old new old_sound.1,
      ) in
      let pending = put key reports log.pending in
      let all : All (IsSound arrived log) pending =
        All-put (IsSound arrived log) key reports log.pending next sound in
      let kept : Log disk f ed = record log { pending = pending } in
      let m =
        apply_quorum_median f tracker key.1 (observations_of reports) (diversity_of reports) in
      let (same_tracker, left) = settle_parts kept key (observations_of reports) m in
      elim (Bool-cases (ltb (length reports) log.majority_k)) [
        | inl few ↦ rw few (all, inl refl)
        | inr enough ↦ rw enough (
          elim left [
            | inl e ↦ subst (All (IsSound arrived log)) (sym e) all
            | inr e ↦
                subst (All (IsSound arrived log)) (sym e)
                  (All-erase (IsSound arrived log) key pending all)
          ],
          elim (apply_quorum_median-Diverse tracker key.1 reports) [
            | inl same ↦ inl (same_tracker ∙ same)
            | inr (merged, diverse) ↦ inr (record {
              reports = reports;
              different = next.0;
              recorded = next.1;
              enough = ground (arith, enough);
              diverse = diverse;
              merged = same_tracker ∙ merged;
            })
          ],
        )
      ]

  Quorum-Extends :
      (arrived : List (Arrival disk f ed)) (before after : Log disk f ed)
      (tracker next : Tracker disk f ed) (key : PendingKey)
      → Extends disk f ed before after
      → Quorum arrived before tracker next key
      → Quorum arrived after tracker next key
  Quorum-Extends arrived before after tracker next key x q =
      let (different, recorded) =
        IsSound-Extends arrived before after (key, q.reports) x (q.different, q.recorded) in
      record {
        reports = q.reports;
        different = different;
        recorded = recorded;
        enough = omega (arith, x.same_k, q.enough);
        diverse = q.diverse;
        merged = q.merged;
      }

  arrive-Sound :
      (arrived : List (Arrival disk f ed)) (log : Log disk f ed) (tracker : Tracker disk f ed)
      (a : Arrival disk f ed)
      → Memᴰ a arrived
      → All (IsSound arrived log) log.pending
      → let r = arrive disk f ed log tracker a in
        All (IsSound arrived r.log) r.log.pending
        × ((r.tracker ≡ tracker) ⊎ Quorum arrived r.log tracker r.tracker (pending_key disk f ed a))
  arrive-Sound arrived log tracker a came sound = elim (arrive-cases disk f ed log tracker a) [
    | inl i ↦
        (subst (λ l. All (IsSound arrived l) l.pending) (sym i.same_log) sound, inl i.same_tracker)
    | inr (fresh, signed, listed, (noted, n, outcome)) ↦
        let x = Noted-Extends disk f ed log noted a fresh n in
        let before : All (IsSound arrived noted) noted.pending =
          subst (All (IsSound arrived noted)) (sym n.pending) (
            All-mono (IsSound arrived log) (IsSound arrived noted) log.pending
              (λ e. IsSound-Extends arrived log noted e x) sound) in
        let new : IsRecorded arrived noted (pending_key disk f ed a)
            (a.advert.reporter, report_of disk f ed a) =
          (
            is_authority-Extends disk f ed log noted a.advert.reporter x ∙ listed,
            ap (find (seen_key disk f ed a)) n.seen
                ∙ find-put_same (seen_key disk f ed a) (payload disk f ed a) log.seen,
            (a, came, signed, refl, refl, refl),
          ) in
        elim outcome [
          | inl (same, kept, _) ↦
              (subst (λ l. All (IsSound arrived l) l.pending) (sym same) before, inl kept)
          | inr (_, same) ↦
              let key = pending_key disk f ed a in
              let r = collect disk f noted tracker key a.advert.reporter (report_of disk f ed a) in
              let y =
                collect-Extends disk f ed noted tracker key a.advert.reporter
                  (report_of disk f ed a) in
              let (after, change) =
                collect-Sound arrived noted tracker key a.advert.reporter (report_of disk f ed a)
                  before new in
              let moved : (r.tracker ≡ tracker) ⊎ Quorum arrived r.log tracker r.tracker key =
                elim change [
                  | inl kept ↦ inl kept
                  | inr q ↦ inr (Quorum-Extends arrived noted r.log tracker r.tracker key y q)
                ] in
              subst
                (λ r.
                  All (IsSound arrived r.log) r.log.pending
                  × ((r.tracker ≡ tracker) ⊎ Quorum arrived r.log tracker r.tracker key))
                (sym same)
                (
                  All-mono (IsSound arrived noted) (IsSound arrived r.log) r.log.pending
                      (λ e. IsSound-Extends arrived noted r.log e y) after,
                  moved,
                )
        ]
  ]

  arrivals-Sound :
      (arrived rest : List (Arrival disk f ed)) (log : Log disk f ed) (tracker : Tracker disk f ed)
      → All (λ a. Memᴰ a arrived) rest
      → All (IsSound arrived log) log.pending
      → let l = (arrivals disk f ed rest log tracker).0 in All (IsSound arrived l) l.pending
  unfolding arrivals
  arrivals-Sound arrived [] log tracker came sound = sound
  arrivals-Sound arrived (a ∷ rest) log tracker (here, came) sound =
      let r = arrive disk f ed log tracker a in
      arrivals-Sound arrived rest r.log r.tracker came
        (arrive-Sound arrived log tracker a here sound).0

  -- From a log with nothing pending, and whatever arrived before, an arrival changes the tracker
  -- only if at least `majority_k` different authorities have sent a signed report on its subject
  -- and epoch that the log has recorded, with at least `min_orgs` different diversity keys among
  -- the labels that these reports came with, and then to the merge of the median of these reports.
  pub merge-Quorum :
      (before : List (Arrival disk f ed)) (log : Log disk f ed) (tracker : Tracker disk f ed)
      (a : Arrival disk f ed)
      → log.pending ≡ []
      → let (log', tracker') = arrivals disk f ed before log tracker in
        let r = arrive disk f ed log' tracker' a in
        (r.tracker ≡ tracker')
        ⊎ Quorum (a ∷ before) r.log tracker' r.tracker (pending_key disk f ed a)
  merge-Quorum before log tracker a fresh =
      let arrived = a ∷ before in
      let start : All (IsSound arrived log) log.pending =
        subst (All (IsSound arrived log)) (sym fresh) tt in
      let after = arrivals disk f ed before log tracker in
      let came : All (λ b. Memᴰ b arrived) before =
        All-mono (λ b. Memᴰ b before) (λ b. Memᴰ b arrived) before (λ b. Memᴰ.tail)
          (All-Memᴰ before) in
      (arrive-Sound arrived after.0 after.1 a (Memᴰ.head refl)
        (arrivals-Sound arrived before log tracker came start)).1
