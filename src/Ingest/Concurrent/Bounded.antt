-- ===== src/Ingest/Concurrent/Bounded.antt =====
-- How often overlapping requests start the graph on a finding, at most.
use snts_collectmind.Prelude.{
  ℕ, zero, suc, ◌+◌, ◌≤◌, Bool, true, false, List, [], ◌∷◌, String, if◌then◌else◌, ◌⊎◌, inl, inr,
  ◌≡◌, refl, arith,
}
use snts_collectmind.Prelude.Dict.{has, pair_eq}
use snts_collectmind.Registry.Audit.{AuditEvent, AuditError, write}
use snts_collectmind.Ingest.Idempotency.{Key}
use snts_collectmind.Ingest.Handler.{
  IngestState, finding_row, new_session, accepted_write, enqueue_after, key_of,
}
use snts_collectmind.Ingest.Handler.Queue.{
  queued, queued-append, is_for-new_session, has-insert_finding, not_recorded,
}
use snts_collectmind.Ingest.Concurrent.{
  Job, Phase, checking, inserting, auditing, answered, advance_from, advance, advance_at,
  interleave,
}

-- The sessions that a request may still start: one past its check, and one before it if the finding
-- is not recorded.
abbrev pub may_start : Bool → Phase → ℕ
may_start recorded checking = if recorded then 0 else 1
may_start recorded inserting = 1
may_start recorded auditing = 1
may_start recorded (answered r) = 0

abbrev pub weight : Key → Bool → Job → ℕ
weight key recorded j =
    if pair_eq.beq (key_of j.principal j.finding) key then may_start recorded j.phase else 0

abbrev pub in_flight : Key → Bool → List Job → ℕ
in_flight key recorded [] = 0
in_flight key recorded (j ∷ jobs) = weight key recorded j + in_flight key recorded jobs

module _ (key : Key) where
  -- A step starts no more sessions than it takes from those that may be started, and what is
  -- recorded stays recorded.
  record Spent (before : ℕ) (s : IngestState) (after : ℕ) (t : IngestState) : Type 0 where
    spent : queued key t.queue + after ≤ queued key s.queue + before
    kept : has key s.findings ≡ true → has key t.findings ≡ true

  may_start_mono : (a b : Bool) (p : Phase) → (a ≡ true → b ≡ true) → may_start b p ≤ may_start a p
  may_start_mono true b checking h = ground (arith, h refl)
  may_start_mono false true checking h = omega arith
  may_start_mono false false checking h = omega arith
  may_start_mono a b inserting h = omega arith
  may_start_mono a b auditing h = omega arith
  may_start_mono a b (answered r) h = omega arith

  weight_mono : (a b : Bool) (j : Job) → (a ≡ true → b ≡ true) → weight key b j ≤ weight key a j
  weight_mono a b j h = ground (arith, may_start_mono a b j.phase h)

  in_flight_mono :
      (a b : Bool) (jobs : List Job)
      → (a ≡ true → b ≡ true)
      → in_flight key b jobs ≤ in_flight key a jobs
  in_flight_mono a b [] h = omega arith
  in_flight_mono a b (j ∷ jobs) h = omega (arith, weight_mono a b j h, in_flight_mono a b jobs h)

  audited-Spent :
      (j : Job) (s : IngestState) (r : AuditError ⊎ (String × List AuditEvent))
      → Spent
          (if pair_eq.beq (key_of j.principal j.finding) key then 1 else 0)
          s
          0
          (enqueue_after r j.ctx j.principal j.finding j.correlation_id s).1
  audited-Spent j s (inl e) = record { spent = ground arith; kept = λ h. h }
  audited-Spent j s (inr (id, audit)) = record {
    spent = ground (
      arith,
      queued-append key s.queue (new_session j.ctx j.principal j.finding j.correlation_id),
      is_for-new_session j.ctx j.principal j.finding j.correlation_id key,
    );
    kept = λ h. h;
  }

  advance_from-Spent :
      (p : Phase) (j : Job) (s : IngestState)
      → j.phase ≡ p
      → Spent
          (weight key (has key s.findings) j)
          s
          (weight key (has key (advance_from p j s).1.findings) (advance_from p j s).0)
          (advance_from p j s).1
  advance_from-Spent checking j s e = record {
    spent = ground (
      arith,
      e,
      pair_eq.beq_iff (key_of j.principal j.finding) key,
      not_recorded (key_of j.principal j.finding) j.payload_sha s.findings,
    );
    kept = λ h. h;
  }
  advance_from-Spent inserting j s e = record {
    spent = ground (arith, e);
    kept = λ h. ground (
      arith,
      h,
      has-insert_finding (key_of j.principal j.finding) key
          (finding_row j.ctx j.payload_sha j.finding) s.findings,
    );
  }
  advance_from-Spent auditing j s e =
      let a = audited-Spent j s (
        write j.ctx.event_id j.ctx.now (accepted_write j.principal j.finding j.correlation_id)
          s.audit) in
      record { spent = ground (arith, e, a.spent); kept = a.kept }
  advance_from-Spent (answered r) j s e = record { spent = ground arith; kept = λ h. h }

  -- Together with the requests that stay as they are.
  advance_at-Spent :
      (n : ℕ) (jobs : List Job) (s : IngestState)
      → Spent
          (in_flight key (has key s.findings) jobs)
          s
          (in_flight key (has key (advance_at n jobs s).1.findings) (advance_at n jobs s).0)
          (advance_at n jobs s).1
  unfolding advance_at advance
  advance_at-Spent n [] s = record { spent = omega arith; kept = λ h. h }
  advance_at-Spent zero (j ∷ jobs) s =
      let a = advance_from-Spent j.phase j s refl in
      record { spent = omega (arith, a.spent, in_flight_mono _ _ jobs a.kept); kept = a.kept }
  advance_at-Spent (suc n) (j ∷ jobs) s =
      let a = advance_at-Spent n jobs s in
      record {
        spent = omega (arith, a.spent, weight_mono (has key s.findings) _ j a.kept);
        kept = a.kept;
      }

  interleave-Spent :
      (schedule : List ℕ) (jobs : List Job) (s : IngestState)
      → Spent
          (in_flight key (has key s.findings) jobs)
          s
          (in_flight key
            (has key (interleave schedule jobs s).1.findings)
            (interleave schedule jobs s).0)
          (interleave schedule jobs s).1
  unfolding interleave
  interleave-Spent [] jobs s = record { spent = omega arith; kept = λ h. h }
  interleave-Spent (n ∷ schedule) jobs s =
      let a = advance_at-Spent n jobs s in
      let b = interleave-Spent schedule (advance_at n jobs s).0 (advance_at n jobs s).1 in
      record { spent = omega (arith, a.spent, b.spent); kept = λ h. b.kept (a.kept h) }

  -- In whatever order the requests go on, the graph is started on a finding at most as often as
  -- there are requests for it that may start it: those past their check, and those before it only
  -- if the finding is not recorded yet.
  pub interleave_bound :
      (schedule : List ℕ) (jobs : List Job) (s : IngestState)
      → queued key (interleave schedule jobs s).1.queue
        ≤ queued key s.queue + in_flight key (has key s.findings) jobs
  interleave_bound schedule jobs s = omega (arith, (interleave-Spent schedule jobs s).spent)
