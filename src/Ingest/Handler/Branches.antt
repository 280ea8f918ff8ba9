-- ===== src/Ingest/Handler/Branches.antt =====
-- The branches of post_finding, and what becomes of a finding whose audit write raises.
use snts_collectmind.Prelude.{
  ℕ, ◌+◌, Bool, true, false, not, Option, none, some, List, [], ◌∷◌, ◌++◌, String, if◌then◌else◌,
  ◌⊎◌, inl, inr, ◌≡◌, Text, refl, sym, ap, ◌∙◌, arith, Bool-cases,
}
use snts_collectmind.Prelude.Json.{Fields}
use snts_collectmind.Prelude.Dict.{has, pair_eq, beq_refl}
use snts_collectmind.Graph.Session.{PolicyGenerationSession}
use snts_collectmind.Registry.Audit.{AuditEvent, AuditError}
use snts_collectmind.Ingest.Idempotency.{Key, FindingRow}
use snts_collectmind.Ingest.SchemaVersion.{SchemaVersionResult, check}
use snts_collectmind.Ingest.Handler.{
  Principal, DiagnosticFinding, Response, not_found, accepted, raised, IngestState, IngestContext,
  foreign_tenant, refusal, refuse_version, version_refusal, finding_row, insert_finding, reply,
  enqueue_after, key_of, first_seen, correlation_of, handle, read_body, pass_version, post_finding,
}
use snts_collectmind.Ingest.Handler.Queue.{has-insert_finding, not_recorded}

-- The response is one that refuses the request.
abbrev pub refuses : Response → Bool
refuses (accepted t id c replay) = false
refuses (raised e) = false
refuses other = true

abbrev refuses_or_raises : Response → ℕ
refuses_or_raises (accepted t id c replay) = 0
refuses_or_raises (raised e) = 1
refuses_or_raises other = 2

-- What a response says of the state `s` before and of the one after.
abbrev pub Settled : IngestState → Response × IngestState → Type 0
Settled s (accepted t id c false, after) =
    (has (t, id) s.findings ≡ false)
    × (has (t, id) after.findings ≡ true)
    × ((q : PolicyGenerationSession) × (q.tenant_id ≡ t)
        × (q.correlation_id ≡ c)
        × (after.queue ≡ (s.queue ++ (q ∷ []))))
Settled s (accepted t id c true, after) =
    (has (t, id) s.findings ≡ true) × (after ≡ record s { received_total = s.received_total + 1 })
Settled s (raised e, after) = (after.queue ≡ s.queue) × (after.audit ≡ s.audit)
Settled s (other, after) = after ≡ s

module _ (ctx : IngestContext) (principal : Principal) where
  own_recorded :
      (f : DiagnosticFinding) (sha : String) (findings : List (Key × FindingRow))
      → has
          (key_of principal f)
          (insert_finding (key_of principal f) (finding_row ctx sha f) findings)
        ≡ true
  own_recorded f sha findings =
      has-insert_finding (key_of principal f) (key_of principal f) (finding_row ctx sha f) findings
      ∙ ap (λ b. if b then true else has (key_of principal f) findings)
          (beq_refl (key_of principal f))

refusal-refuses : (v : SchemaVersionResult) (r : Response) → refusal v ≡ some r → refuses r ≡ true
refusal-refuses v r h = ground arith

refuse_version-refuses :
    (supported : ℕ) (version : Option (Option Text)) (r : Response)
    → refuse_version supported version ≡ some r
    → refuses r ≡ true
refuse_version-refuses supported none r h = ground arith
refuse_version-refuses supported (some version) r h = refusal-refuses (check supported version) r h

version_refusal-refuses :
    (supported : ℕ) (body : Fields) (r : Response)
    → version_refusal supported body ≡ some r
    → refuses r ≡ true
unfolding version_refusal
version_refusal-refuses supported body r h = refuse_version-refuses supported _ r h

module _ (ctx : IngestContext) (principal : Principal) where
  enqueue_after-raised :
      (result : AuditError ⊎ (String × List AuditEvent)) (f : DiagnosticFinding) (c : String)
      (s after : IngestState) (e : AuditError)
      → enqueue_after result ctx principal f c s ≡ (raised e, after)
      → after.findings ≡ s.findings
  enqueue_after-raised (inl e1) f c s after e h = ap (λ r. r.1.findings) (sym h)
  enqueue_after-raised (inr (id, audit)) f c s after e h = ap (λ r. r.1.findings) (sym h)

  handle-raised :
      (seen : Bool) (f : DiagnosticFinding) (sha c : String) (s after : IngestState)
      (e : AuditError)
      → handle seen ctx principal f sha c s ≡ (raised e, after)
      → has (key_of principal f) after.findings ≡ true
  unfolding handle first_seen
  handle-raised false f sha c s after e h =
      absurd (ground (arith, ap (λ r. refuses_or_raises r.0) h))
  handle-raised true f sha c s after e h =
      ap (has (key_of principal f)) (enqueue_after-raised _ f c _ after e h)
      ∙ own_recorded ctx principal f sha s.findings

  -- A request that raised was one that could be read, and its finding is recorded.
  abbrev Raised : (String × String) ⊎ DiagnosticFinding → IngestState → Type 0
  Raised parsed after =
      (f : DiagnosticFinding) × (parsed ≡ inr f) × (has (key_of principal f) after.findings ≡ true)

  read_body-raised :
      (parsed : (String × String) ⊎ DiagnosticFinding) (body : Fields) (header : Option String)
      (s after : IngestState) (e : AuditError)
      → read_body parsed ctx principal body header s ≡ (raised e, after)
      → Raised parsed after
  read_body-raised (inl m) body header s after e h =
      absurd (ground (arith, ap (λ r. refuses_or_raises r.0) h))
  read_body-raised (inr f) body header s after e h = (f, refl, handle-raised _ f _ _ _ after e h)

  pass_version-raised :
      (refused : Option Response) (body : Fields) (header : Option String) (s after : IngestState)
      (e : AuditError)
      → ((r : Response) → refused ≡ some r → refuses r ≡ true)
      → pass_version refused ctx principal body header s ≡ (raised e, after)
      → (refused ≡ none) × Raised (ctx.model_validate body) after
  pass_version-raised none body header s after e k h =
      (refl, read_body-raised _ body header s after e h)
  pass_version-raised (some r) body header s after e k h =
      absurd (ground (arith, k r refl, ap (λ r. refuses r.0) h))

  -- The same request again, with what is fresh each time.
  abbrev pub anew : String → String → String → String → IngestContext
  anew event_id new_uuid new_ulid now = record ctx {
    event_id = event_id;
    new_uuid = new_uuid;
    new_ulid = new_ulid;
    now = now;
  }

  handle-replay :
      (f : DiagnosticFinding) (sha c : String) (s : IngestState) (seen : Bool)
      → has (key_of principal f) s.findings ≡ not seen
      → has (key_of principal f) s.findings ≡ true
      → handle seen ctx principal f sha c s ≡ (reply principal f c true, s)
  unfolding handle
  handle-replay f sha c s false h k = refl
  handle-replay f sha c s true h k = absurd (ground arith)

unfold_foreign :
    (ctx : IngestContext) (principal : Principal) (body : Fields) (header : Option String)
    (s : IngestState)
    → foreign_tenant principal body ≡ true
    → post_finding ctx principal body header s ≡ (not_found, s)
unfolding post_finding
unfold_foreign ctx principal body header s x = rw x refl

unfold_own :
    (ctx : IngestContext) (principal : Principal) (body : Fields) (header : Option String)
    (s : IngestState)
    → foreign_tenant principal body ≡ false
    → post_finding ctx principal body header s
      ≡ pass_version (version_refusal ctx.supported_major body) ctx principal body header s
unfolding post_finding
unfold_own ctx principal body header s x = rw x refl

-- If the audit write of a request raises, the finding is recorded all the same: when the same
-- request comes again it is answered as a replay, and the graph is never started on it.
pub lost_after_audit_error :
    (ctx : IngestContext) (principal : Principal) (body : Fields) (header header2 : Option String)
    (s after : IngestState) (e : AuditError) (event_id new_uuid new_ulid now : String)
    → post_finding ctx principal body header s ≡ (raised e, after)
    → (id : String) × (c : String) × (post_finding
          (anew ctx principal event_id new_uuid new_ulid now)
          principal
          body
          header2
          after
        ≡ (
          accepted principal.tenant_id id c true,
          record after { received_total = after.received_total + 1 },
        ))
lost_after_audit_error ctx principal body header header2 s after e event_id new_uuid new_ulid now
      h =
    elim (Bool-cases (foreign_tenant principal body)) [
      | inl x ↦ absurd (
          ground (
            arith,
            ap (λ r. refuses_or_raises r.0)
                (sym (unfold_foreign ctx principal body header s x) ∙ h),
          ))
      | inr x ↦
          let again = anew ctx principal event_id new_uuid new_ulid now in
          let r =
            pass_version-raised ctx principal (version_refusal ctx.supported_major body) body header
              s after e (version_refusal-refuses ctx.supported_major body)
              (sym (unfold_own ctx principal body header s x) ∙ h) in
          let f = r.1.0 in
          (
            f.finding_id,
            correlation_of again header2,
            unfold_own again principal body header2 after x
                ∙ ap (λ v. pass_version v again principal body header2 after) r.0
                ∙ ap (λ v. read_body v again principal body header2 after) r.1.1
                ∙ handle-replay again principal f _ (correlation_of again header2)
                    (record after { received_total = after.received_total + 1 }) _
                    (not_recorded (key_of principal f) (ctx.payload_sha body) after.findings) r.1.2,
          )
    ]
