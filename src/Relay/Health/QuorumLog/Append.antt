-- ===== src/Relay/Health/QuorumLog/Append.antt =====
-- The branches of an append, and what no append takes back.
use anonymous.Common.Results.{ok, err, Result-cases}
use anonymous.Common.Tables.{find, put, member, bytes_key, pair_key, nat_key}
use anonymous.Common.{
  ℕ, ◌≡◌, refl, ap, ◌∙◌, ◌⊎◌, inl, inr, true, false, Option, none, some, List, [], ◌∷◌, ◌++◌,
  Bool-cases, Option-cases,
}
use anonymous.Relay.Health.{Report, PeerHealthTracker}
use anonymous.Relay.Rates.{Floats}
use anonymous.Relay.Labels.{Text}
use anonymous.Relay.Health.Advert.{Ed25519, PeerHealthAdvert, verify}
use anonymous.Relay.Health.QuorumLog.{
  QuorumLogError, io_error, duplicate, record_bytes, HealthQuorumLogEntry, PendingKey, SeenKey,
  Disk, HealthQuorumLog, is_authority, persist_entry, Appended, collect, merge_new, append_new,
  append_verified, diversity_or_id,
}

module _ (disk : Disk) (f : Floats) (ed : Ed25519) where
  -- A signed report as it arrives: its epoch, its key and the label of its reporter.
  pub record Arrival : Type 0 where
    pub epoch : ℕ
    pub advert : PeerHealthAdvert
    pub verifying_key : ed.VerifyingKey
    pub diversity_key : Text

  abbrev pub seen_key : Arrival → SeenKey
  seen_key a = (a.epoch, (a.advert.reporter, a.advert.subject))

  abbrev pub pending_key : Arrival → PendingKey
  pending_key a = (a.epoch, a.advert.subject)

  abbrev pub payload : Arrival → ℕ × ℕ
  payload a = (a.advert.successes, a.advert.failures)

  abbrev pub report_of : Arrival → Report
  report_of a = record {
    successes = a.advert.successes;
    failures = a.advert.failures;
    diversity = diversity_or_id a.diversity_key a.advert.reporter;
  }

  abbrev pub Log : Type 0
  Log = HealthQuorumLog disk

  abbrev pub Tracker : Type 0
  Tracker = PeerHealthTracker f

  abbrev pub arrive : Log → Tracker → Arrival → Appended disk f
  arrive log tracker a =
      append_verified disk f ed log tracker a.epoch a.advert a.verifying_key a.diversity_key

  -- Reports that arrive one after the other.
  unfoldable pub arrivals : List Arrival → Log → Tracker → Log × Tracker
  arrivals [] log tracker = (log, tracker)
  arrivals (a ∷ rest) log tracker = let r = arrive log tracker a in arrivals rest r.log r.tracker

  -- The log with the arrival noted.
  pub record Noted (log noted : Log) (a : Arrival) : Type 0 where
    pub majority_k : noted.majority_k ≡ log.majority_k
    pub authority_set : noted.authority_set ≡ log.authority_set
    pub seen : noted.seen ≡ put (seen_key a) (payload a) log.seen
    pub pending : noted.pending ≡ log.pending
    pub applied : noted.applied ≡ log.applied
    pub medians : noted.applied_medians ≡ log.applied_medians

  -- Nothing changed, and the result is an error or that the report is known.
  pub record Ignored (log : Log) (tracker : Tracker) (a : Arrival) (r : Appended disk f)
      : Type 0 where
    pub same_log : r.log ≡ log
    pub same_tracker : r.tracker ≡ tracker
    pub refusal :
        ((e : QuorumLogError) × (r.result ≡ err e))
        ⊎ ((r.result ≡ ok duplicate)
            × (find (seen_key a) log.seen ≡ some (payload a))
            × (is_authority disk log a.advert.reporter ≡ true))

  -- What an arrival of a new key comes to, once it is noted.
  abbrev pub Outcome : Log → Tracker → Arrival → Appended disk f → Type 0
  Outcome noted tracker a r =
      ((r.log ≡ noted)
        × (r.tracker ≡ tracker)
        × ((r.result ≡ err io_error) ⊎ (r.result ≡ ok duplicate)))
      ⊎ ((member (pending_key a) noted.applied ≡ false)
          × (r ≡ collect disk f noted tracker (pending_key a) a.advert.reporter (report_of a)))

  abbrev pub Fresh : Log → Tracker → Arrival → Appended disk f → Type 0
  Fresh log tracker a r =
      (find (seen_key a) log.seen ≡ none)
      × (verify ed a.advert a.verifying_key ≡ ok tt)
      × (is_authority disk log a.advert.reporter ≡ true)
      × ((noted : Log) × Noted log noted a × Outcome noted tracker a r)

  merge_new-Outcome :
      (noted : Log) (tracker : Tracker) (a : Arrival)
      → Outcome noted tracker a (merge_new disk f noted tracker a.epoch a.advert a.diversity_key)
  unfolding merge_new
  merge_new-Outcome noted tracker a = elim (Bool-cases (member (pending_key a) noted.applied)) [
    | inl e ↦ rw e (inl (refl, refl, inr refl))
    | inr e ↦ inr (e, rw e refl)
  ]

  persist_entry-File :
      (log : Log) (entry : HealthQuorumLogEntry)
      → (file : Option disk.File) × ((persist_entry disk log entry).0 ≡ record log { file = file })
        × (((persist_entry disk log entry).1 ≡ ok tt)
            ⊎ ((persist_entry disk log entry).1 ≡ err io_error))
  unfolding persist_entry
  persist_entry-File log entry = elim (Option-cases log.file) [
    | inl e ↦ (
      none,
      rw (e, persist_entry) (ap (λ o. record log { file = o }) e),
      inl (rw (e, persist_entry) refl),
    )
    | inr (file, e) ↦
        let after = some (disk.append file (record_bytes entry)).1 in
        elim (Bool-cases (disk.append file (record_bytes entry)).0) [
          | inl bad ↦ (after, rw (e, persist_entry) refl, inr (rw (e, persist_entry) (rw bad refl)))
          | inr good ↦
              (after, rw (e, persist_entry) refl, inl (rw (e, persist_entry) (rw good refl)))
        ]
  ]

  append_new-Outcome :
      (log : Log) (tracker : Tracker) (a : Arrival)
      → (noted : Log) × Noted log noted a
        × Outcome noted tracker a (append_new disk f log tracker a.epoch a.advert a.diversity_key)
  unfolding append_new
  append_new-Outcome log tracker a =
      let entry : HealthQuorumLogEntry = record { epoch = a.epoch; advert = a.advert } in
      let noted : Log = record log {
        seen = put (seen_key a) (payload a) log.seen;
        entries = log.entries ++ (entry ∷ []);
      } in
      let (file, same, outcome) = persist_entry-File noted entry in
      let written : Log = record noted { file = file } in
      let facts : Noted log written a = record {
        majority_k = refl;
        authority_set = refl;
        seen = refl;
        pending = refl;
        applied = refl;
        medians = refl;
      } in
      (
        written,
        facts,
        elim outcome [
          | inl good ↦ rw (good, append_new) (rw same (merge_new-Outcome written tracker a))
          | inr bad ↦ rw (bad, append_new) (rw same (inl (refl, refl, inl refl)))
        ],
      )

  pub arrive-cases :
      (log : Log) (tracker : Tracker) (a : Arrival)
      → Ignored log tracker a (arrive log tracker a) ⊎ Fresh log tracker a (arrive log tracker a)
  unfolding append_verified
  arrive-cases log tracker a = elim (Result-cases (verify ed a.advert a.verifying_key)) [
    | inl (x, bad) ↦
        rw (bad, append_verified)
          (inl (record { same_log = refl; same_tracker = refl; refusal = inl (_, refl) }))
    | inr (_, good) ↦ elim (Bool-cases (is_authority disk log a.advert.reporter)) [
      | inr unlisted ↦
          rw (good, append_verified)
            (rw unlisted
              (inl (record { same_log = refl; same_tracker = refl; refusal = inl (_, refl) })))
      | inl listed ↦ elim (Option-cases (find (seen_key a) log.seen)) [
        | inl e ↦
            rw (good, append_verified)
              (rw (listed, e) (inr (refl, refl, refl, append_new-Outcome log tracker a)))
        | inr (prev, e) ↦ elim (Bool-cases (pair_key.same prev (payload a))) [
          | inl same ↦
              let at : prev ≡ payload a = (pair_key.same_iff prev (payload a)).0 same in
              rw (good, append_verified)
                (rw (listed, e)
                  (rw same (
                    inl (record {
                      same_log = refl;
                      same_tracker = refl;
                      refusal = inr (refl, e ∙ ap some at, listed);
                    }))))
          | inr other ↦
              rw (good, append_verified)
                (rw (listed, e)
                  (rw other (
                    inl
                      (record { same_log = refl; same_tracker = refl; refusal = inl (_, refl) }))))
        ]
      ]
    ]
  ]
