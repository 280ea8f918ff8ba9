-- ===== src/Ingest/Concurrent/Alone.antt =====
-- A request with no other in between, against post_finding as one function.
use snts_collectmind.Prelude.{Option, String}
use snts_collectmind.Prelude.Json.{Fields}
use snts_collectmind.Ingest.Handler.{Principal, DiagnosticFinding, IngestContext, correlation_of}
use snts_collectmind.Ingest.Concurrent.{Job, checking}

-- The request, once its body is read.
abbrev pub started : IngestContext → Principal → Fields → Option String → DiagnosticFinding → Job
started ctx principal body header f = record {
  ctx = ctx;
  principal = principal;
  finding = f;
  payload_sha = ctx.payload_sha body;
  correlation_id = correlation_of ctx header;
  phase = checking;
}
