-- ===== src/Ingest/Concurrent.antt =====
-- src/collectmind/ingest/http.py: requests of post_finding that overlap. Each has read its body and
-- goes through its transactions one after another, at each of which others may come in between: the
-- idempotency check, the insert of the finding, and the audit row, after which the graph is started
-- at once.
pub mod Alone
pub mod Bounded
pub mod Race
mod Examples
use snts_collectmind.Prelude.{
  ℕ, zero, suc, ◌+◌, Bool, true, false, Option, none, some, List, [], ◌∷◌, String, if◌then◌else◌,
}
use snts_collectmind.Registry.Audit.{write}
use snts_collectmind.Ingest.Idempotency.{check_in_findings}
use snts_collectmind.Ingest.Handler.{
  Principal, DiagnosticFinding, Response, IngestState, IngestContext, finding_row, insert_finding,
  accepted_write, enqueue_after, key_of, reply,
}

-- What a request does next, or the response that it has been given.
pub data Phase : Type 0 where
  checking inserting auditing : Phase
  answered : Response → Phase

pub record Job : Type 0 where
  pub ctx : IngestContext
  pub principal : Principal
  pub finding : DiagnosticFinding
  pub payload_sha : String
  pub correlation_id : String
  pub phase : Phase

-- One transaction of a request.
abbrev pub advance_from : Phase → Job → IngestState → Job × IngestState
advance_from checking j s =
    let decision = check_in_findings (key_of j.principal j.finding) j.payload_sha s.findings in
    (
      record j {
        phase =
            if decision.first_seen
            then inserting
            else answered (reply j.principal j.finding j.correlation_id true);
      },
      record s { received_total = s.received_total + 1 },
    )
advance_from inserting j s = (
  record j { phase = auditing },
  record s {
    findings =
        insert_finding (key_of j.principal j.finding) (finding_row j.ctx j.payload_sha j.finding)
          s.findings;
  },
)
advance_from auditing j s =
    let (response, after) =
      enqueue_after
        (write j.ctx.event_id j.ctx.now (accepted_write j.principal j.finding j.correlation_id)
          s.audit)
        j.ctx j.principal j.finding j.correlation_id s in
    (record j { phase = answered response }, after)
advance_from (answered response) j s = (j, s)

unfoldable pub advance : Job → IngestState → Job × IngestState
advance j s = advance_from j.phase j s

-- The request at a position goes on by one transaction.
unfoldable pub advance_at : ℕ → List Job → IngestState → List Job × IngestState
unfolding advance
advance_at n [] s = ([], s)
advance_at zero (j ∷ jobs) s = let (k, after) = advance j s in (k ∷ jobs, after)
advance_at (suc n) (j ∷ jobs) s = let (rest, after) = advance_at n jobs s in (j ∷ rest, after)

-- The event loop takes the requests in the order of the schedule.
unfoldable pub interleave : List ℕ → List Job → IngestState → List Job × IngestState
unfolding advance_at
interleave [] jobs s = (jobs, s)
interleave (n ∷ schedule) jobs s =
    let (after_jobs, after) = advance_at n jobs s in interleave schedule after_jobs after
