-- ===== src/Ingest/Concurrent/Race.antt =====
-- Two requests for one finding that overlap.
use snts_collectmind.Prelude.{
  ◌+◌, true, false, List, [], ◌∷◌, ◌++◌, String, ◌⊎◌, inr, ◌≡◌, refl, ◌∙◌, ap, arith,
}
use snts_collectmind.Prelude.Dict.{has, pair_eq}
use snts_collectmind.Graph.Session.{PolicyGenerationSession}
use snts_collectmind.Registry.Audit.{AuditEvent, AuditError, write}
use snts_collectmind.Ingest.Idempotency.{Key, check_in_findings}
use snts_collectmind.Ingest.Handler.{IngestState, new_session, accepted_write, key_of, reply}
use snts_collectmind.Ingest.Handler.Queue.{queued, queued-append, is_for-new_session, not_recorded}
use snts_collectmind.Ingest.Concurrent.{Job, checking, answered, advance, advance_at, interleave}

abbrev pub write_of : Job → List AuditEvent → AuditError ⊎ (String × List AuditEvent)
write_of j audit =
    write j.ctx.event_id j.ctx.now (accepted_write j.principal j.finding j.correlation_id) audit

-- Two requests at their check, for the same finding of the same tenant, that is not recorded, and
-- whose audit rows can both be written.
pub record CanRace (j k : Job) (s : IngestState) : Type 0 where
  pub first : j.phase ≡ checking
  pub second : k.phase ≡ checking
  pub same : key_of k.principal k.finding ≡ key_of j.principal j.finding
  pub new : has (key_of j.principal j.finding) s.findings ≡ false
  pub id : String
  pub middle : List AuditEvent
  pub written : write_of j s.audit ≡ inr (id, middle)
  pub id2 : String
  pub last : List AuditEvent
  pub written2 : write_of k middle ≡ inr (id2, last)

abbrev pub first_answer : Job → Job
first_answer j = record j { phase = answered (reply j.principal j.finding j.correlation_id false) }

unrecorded_seen :
    (j : Job) (s : IngestState)
    → has (key_of j.principal j.finding) s.findings ≡ false
    → (check_in_findings (key_of j.principal j.finding) j.payload_sha s.findings).first_seen ≡ true
unrecorded_seen j s h =
    ground (arith, not_recorded (key_of j.principal j.finding) j.payload_sha s.findings)

one_queued :
    (key : Key) (j : Job) (queue : List PolicyGenerationSession)
    → key_of j.principal j.finding ≡ key
    → queued key (queue ++ (new_session j.ctx j.principal j.finding j.correlation_id ∷ []))
      ≡ queued key queue + 1
one_queued key j queue h = ground (
  arith,
  queued-append key queue (new_session j.ctx j.principal j.finding j.correlation_id),
  is_for-new_session j.ctx j.principal j.finding j.correlation_id key,
  pair_eq.beq_iff (key_of j.principal j.finding) key,
  h,
)

both_queued :
    (j k : Job) (queue : List PolicyGenerationSession)
    → key_of k.principal k.finding ≡ key_of j.principal j.finding
    → queued (key_of j.principal j.finding) (
        (queue ++ (new_session j.ctx j.principal j.finding j.correlation_id ∷ []))
        ++ (new_session k.ctx k.principal k.finding k.correlation_id ∷ []))
      ≡ queued (key_of j.principal j.finding) queue + 2
both_queued j k queue h = omega (
  arith,
  one_queued (key_of j.principal j.finding) j queue refl,
  one_queued (key_of j.principal j.finding) k
      (queue ++ (new_session j.ctx j.principal j.finding j.correlation_id ∷ [])) h,
)

-- When both checks come before the first insert, both requests are answered as the first of the
-- finding, and the graph is started on it twice.
pub race_starts_twice :
    (j k : Job) (s : IngestState)
    → CanRace j k s
    → ((interleave (0 ∷ 1 ∷ 0 ∷ 1 ∷ 0 ∷ 1 ∷ []) (j ∷ k ∷ []) s).0
        ≡ first_answer j ∷ first_answer k ∷ [])
      × (queued
            (key_of j.principal j.finding)
            (interleave (0 ∷ 1 ∷ 0 ∷ 1 ∷ 0 ∷ 1 ∷ []) (j ∷ k ∷ []) s).1.queue
          ≡ queued (key_of j.principal j.finding) s.queue + 2)
unfolding interleave advance_at advance
race_starts_twice j k s h =
    let seen = unrecorded_seen j s h.new in
    let seen2 = unrecorded_seen k s (ap (λ key. has key s.findings) h.same ∙ h.new) in
    rw h.first (
      rw seen (
        rw h.second
          (rw seen2 (rw h.written (rw h.written2 (refl, both_queued j k s.queue h.same))))))
