-- ===== src/Ingest/Handler/Queue.antt =====
-- What post_finding leaves behind on each branch, and how often it starts the graph on a finding.
use snts_collectmind.Prelude.{
  ℕ, ◌+◌, ◌≤◌, Bool, true, false, not, ◌&&◌, some, List, [], ◌∷◌, ◌++◌, String, if◌then◌else◌, ◌==◌,
  ◌≡◌, refl, arith,
}
use snts_collectmind.Prelude.Json.{str, get}
use snts_collectmind.Prelude.Dict.{has, pair_eq, lookup-insert}
use snts_collectmind.Graph.Session.{PolicyGenerationSession}
use snts_collectmind.Ingest.Idempotency.{Key, FindingRow, check_in_findings}
use snts_collectmind.Ingest.Handler.{
  Principal, DiagnosticFinding, IngestState, IngestContext, finding_row, new_session,
  insert_finding, key_of, first_seen,
}

pub has-insert_finding :
    (key j : Key) (row : FindingRow) (findings : List (Key × FindingRow))
    → has j (insert_finding key row findings) ≡ (if pair_eq.beq key j then true else has j findings)
unfolding insert_finding has
has-insert_finding key j row findings =
    ground (arith, lookup-insert key j row findings, pair_eq.beq_iff key j)

pub not_recorded :
    (key : Key) (sha : String) (findings : List (Key × FindingRow))
    → has key findings ≡ not (check_in_findings key sha findings).first_seen
unfolding has check_in_findings
not_recorded key sha findings = ground arith

-- How many sessions of the queue are for a finding.
abbrev pub is_for : Key → PolicyGenerationSession → Bool
is_for key q =
    (q.tenant_id == key.0)
    && elim (get "finding_id" q.originating_finding) [ some (str f) ↦ f == key.1 | _ ↦ false ]

abbrev pub queued : Key → List PolicyGenerationSession → ℕ
queued key [] = 0
queued key (q ∷ queue) = (if is_for key q then 1 else 0) + queued key queue

pub queued-append :
    (key : Key) (queue : List PolicyGenerationSession) (q : PolicyGenerationSession)
    → queued key (queue ++ (q ∷ [])) ≡ queued key queue + (if is_for key q then 1 else 0)
queued-append key [] q = omega arith
queued-append key (p ∷ queue) q = omega (arith, queued-append key queue q)

pub is_for-new_session :
    (ctx : IngestContext) (principal : Principal) (f : DiagnosticFinding) (c : String) (key : Key)
    → is_for key (new_session ctx principal f c) ≡ pair_eq.beq (key_of principal f) key
unfolding new_session get
is_for-new_session ctx principal f c key = refl

-- No finding is queued twice, and none that is not recorded.
abbrev pub QueuedOnce : IngestState → Type 0
QueuedOnce s = (key : Key) → queued key s.queue ≤ (if has key s.findings then 1 else 0)

module _ (ctx : IngestContext) (principal : Principal) (f : DiagnosticFinding) where
  abbrev recorded : String → IngestState → IngestState
  recorded sha s = record s {
    findings = insert_finding (key_of principal f) (finding_row ctx sha f) s.findings;
  }
