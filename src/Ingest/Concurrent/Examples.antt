-- ===== src/Ingest/Concurrent/Examples.antt =====
-- Overlapping requests at concrete inputs.
use snts_collectmind.Prelude.{◌+◌, ◌≤◌, [], ◌∷◌, String, inr, ◌≡◌, refl}
use snts_collectmind.Prelude.Dict.{lookup, has, pair_eq}
use snts_collectmind.Registry.Audit.{write, missing, kind_min_fields, upsert, find_row, row_of}
use snts_collectmind.Ingest.Idempotency.{Key}
use snts_collectmind.Ingest.Handler.{
  Principal, DiagnosticFinding, IngestState, IngestContext, accepted_write,
}
use snts_collectmind.Ingest.Handler.Queue.{queued}
use snts_collectmind.Ingest.Concurrent.{Job, checking, auditing, interleave}
use snts_collectmind.Ingest.Concurrent.Bounded.{in_flight, interleave_bound}
use snts_collectmind.Ingest.Concurrent.Race.{CanRace, first_answer, race_starts_twice}

abbrev a_finding : DiagnosticFinding
a_finding = record {
  schema_version = "1.0.0";
  finding_id = "f1";
  anomaly_type = "brake_wear";
  hypothesis_class = "wear";
  hypothesis_statement = "pads wear early";
  candidate_signals = "Vehicle.Speed" ∷ [];
  vehicle_scope = "v1" ∷ [];
  upstream_confidence = "0.9";
}

abbrev a_context : String → IngestContext
a_context event_id = record {
  event_id = event_id;
  new_uuid = "u1";
  new_ulid = "s1";
  now = "t1";
  supported_major = 1;
  model_validate = λ body. inr a_finding;
  payload_sha = λ body. "sha1";
}

abbrev acme : Principal
acme = record { tenant_id = "acme"; subject = "svc" }

abbrev nothing_yet : IngestState
nothing_yet = record { findings = []; audit = []; queue = []; received_total = 0 }

abbrev a_request : String → String → Job
a_request event_id correlation_id = record {
  ctx = a_context event_id;
  principal = acme;
  finding = a_finding;
  payload_sha = "sha1";
  correlation_id = correlation_id;
  phase = checking;
}

interleave_bound_example :
    queued
      ("acme", "f1")
      (interleave
        (0 ∷ 1 ∷ 0 ∷ 0 ∷ 1 ∷ 1 ∷ [])
        (a_request "e1" "c1" ∷ record (a_request "e2" "c2") { phase = auditing } ∷ [])
        nothing_yet).1.queue
    ≤ queued ("acme", "f1") []
      + in_flight
          ("acme", "f1")
          (has {K = Key} ("acme", "f1") nothing_yet.findings)
          (a_request "e1" "c1" ∷ record (a_request "e2" "c2") { phase = auditing } ∷ [])
interleave_bound_example =
    interleave_bound ("acme", "f1") (0 ∷ 1 ∷ 0 ∷ 0 ∷ 1 ∷ 1 ∷ [])
      (a_request "e1" "c1" ∷ record (a_request "e2" "c2") { phase = auditing } ∷ []) nothing_yet

can_race : CanRace (a_request "e1" "c1") (a_request "e2" "c2") nothing_yet
unfolding write missing kind_min_fields upsert find_row has lookup accepted_write row_of
can_race = record {
  first = refl;
  second = refl;
  same = refl;
  new = refl;
  id = "e1";
  middle = row_of "e1" "t1" (accepted_write acme a_finding "c1") ∷ [];
  written = refl;
  id2 = "e2";
  last =
      row_of "e1" "t1" (accepted_write acme a_finding "c1")
      ∷ row_of "e2" "t1" (accepted_write acme a_finding "c2")
      ∷ [];
  written2 = refl;
}

race_starts_twice_example :
    ((interleave
        (0 ∷ 1 ∷ 0 ∷ 1 ∷ 0 ∷ 1 ∷ [])
        (a_request "e1" "c1" ∷ a_request "e2" "c2" ∷ [])
        nothing_yet).0
      ≡ first_answer (a_request "e1" "c1") ∷ first_answer (a_request "e2" "c2") ∷ [])
    × (queued
          ("acme", "f1")
          (interleave
            (0 ∷ 1 ∷ 0 ∷ 1 ∷ 0 ∷ 1 ∷ [])
            (a_request "e1" "c1" ∷ a_request "e2" "c2" ∷ [])
            nothing_yet).1.queue
        ≡ queued ("acme", "f1") [] + 2)
race_starts_twice_example =
    race_starts_twice (a_request "e1" "c1") (a_request "e2" "c2") nothing_yet can_race
