-- ===== src/Ingest/Idempotency.antt =====
-- src/collectmind/ingest/idempotency.py: _InMemoryBackend and _PgBackend.
pub mod Once
use snts_collectmind.Prelude.{Bool, true, false, not, Option, none, some, List, String, ◌==◌}
use snts_collectmind.Prelude.Dict.{lookup, insert, pair_eq}

pub record IdempotencyDecision : Type 0 where
  pub first_seen : Bool
  pub idempotent_replay : Bool
  pub payload_changed : Bool

-- By (tenant_id, finding_id).
abbrev pub Key : Type 0
Key = String × String

abbrev pub decide : Option String → String → IdempotencyDecision
decide none payload_sha = record {
  first_seen = true;
  idempotent_replay = false;
  payload_changed = false;
}
decide (some previous) payload_sha = record {
  first_seen = false;
  idempotent_replay = previous == payload_sha;
  payload_changed = not (previous == payload_sha);
}

abbrev record_first : Option String → Key → String → List (Key × String) → List (Key × String)
record_first none key payload_sha store = insert key payload_sha store
record_first (some previous) key payload_sha store = store

-- _InMemoryBackend.check_or_record
unfoldable pub check_or_record :
    Key → String → List (Key × String) → IdempotencyDecision × List (Key × String)
unfolding lookup insert
check_or_record key payload_sha store =
    let previous = lookup key store in
    (decide previous payload_sha, record_first previous key payload_sha store)

-- A row of diagnostic_findings, past its key.
pub record FindingRow : Type 0 where
  pub schema_version : String
  pub anomaly_type : String
  pub hypothesis_class : String
  pub hypothesis_statement : String
  pub candidate_signals : List String
  pub vehicle_scope : List String
  pub upstream_confidence : String
  pub received_at : String
  pub received_payload_sha256 : String

abbrev pub sha_of : Option FindingRow → Option String
sha_of none = none
sha_of (some row) = some row.received_payload_sha256

-- _PgBackend.check_or_record: it reads the table only.
unfoldable pub check_in_findings : Key → String → List (Key × FindingRow) → IdempotencyDecision
check_in_findings key payload_sha findings = decide (sha_of (lookup key findings)) payload_sha
