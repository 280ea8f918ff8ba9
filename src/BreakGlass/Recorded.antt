-- ===== src/BreakGlass/Recorded.antt =====
-- What the break-glass read leaves in the audit trail, and whom it answers.
use snts_collectmind.Prelude.{
  Bool, true, false, Option, none, some, List, [], ◌∷◌, ◌++◌, String, ◌⊎◌, inl, inr, ◌≡◌, refl, sym,
  ap, ◌∙◌, arith, All, Bool-cases, Option-cases, eq_iff, eq_refl, keep_if, length, ℕ,
}
use snts_collectmind.Registry.Audit.{AuditEvent, find_row, own_key}
use snts_collectmind.Auth.Verifier.{Principal, Raised, JwtLibrary, JwtVerifier, verify}
use snts_collectmind.Auth.Verifier.Trusted.{Trusted, verified_only_if_Trusted}
use snts_collectmind.Auth.Principals.{
  Credentials, Refusal, OperatorPrincipal, is_bearer, caught, as_operator, authenticated_principal,
  authenticated_operator_principal,
}
use snts_collectmind.BreakGlass.{
  BreakGlassRequest, EventShown, event_list, break_glass_row, insert_row, in_scope, shown,
  events_of, respond, break_glass_query, handled, break_glass,
}

find_row-append :
    (p : AuditEvent → Bool) (table : List AuditEvent) (row : AuditEvent)
    → find_row p table ≡ none
    → p row ≡ true
    → find_row p (table ++ (row ∷ [])) ≡ some row
unfolding find_row
find_row-append p [] row h k = rw k refl
find_row-append p (r ∷ table) row h k = ground (arith, find_row-append p table row)

own_key_self : (row : AuditEvent) → own_key row row ≡ true
own_key_self row = rw (eq_refl row.written.correlation_id) (eq_refl row.written.kind)

-- The table has a row of the correlation and the kind of the row.
abbrev pub HasRow : AuditEvent → List AuditEvent → Type 0
HasRow row table = (r : AuditEvent) × (find_row (own_key row) table ≡ some r)

insert_row-HasRow : (row : AuditEvent) (table : List AuditEvent) → HasRow row (insert_row row table)
unfolding insert_row
insert_row-HasRow row table = elim (Option-cases (find_row (own_key row) table)) [
  | inl e ↦ rw e (row, find_row-append (own_key row) table row e (own_key_self row))
  | inr (r, e) ↦ rw e (r, e)
]

-- An event of the tenant and the correlation asked for.
abbrev pub InScope : BreakGlassRequest → EventShown → Type 0
InScope payload e =
    (e.tenant_id ≡ payload.tenant_scope) × (e.correlation_id ≡ payload.correlation_id)

in_scope-InScope :
    (payload : BreakGlassRequest) (r : AuditEvent)
    → in_scope payload r ≡ true
    → InScope payload (shown r)
unfolding shown
in_scope-InScope payload r h = ground (
  arith,
  eq_iff r.written.tenant_id payload.tenant_scope,
  eq_iff r.written.correlation_id payload.correlation_id,
)

kept-InScope :
    (payload : BreakGlassRequest) (table : List AuditEvent)
    → All (InScope payload) (events_of (keep_if (in_scope payload) table))
unfolding events_of
kept-InScope payload [] = tt
kept-InScope payload (r ∷ table) = step (in_scope payload r) refl (kept-InScope payload table)
  where
    step :
        (b : Bool)
        → in_scope payload r ≡ b
        → All (InScope payload) (events_of (keep_if (in_scope payload) table))
        → All (InScope payload) (
            events_of (elim b [
              | true ↦ r ∷ keep_if (in_scope payload) table
              | false ↦ keep_if (in_scope payload) table
            ]))
    step true e h = (in_scope-InScope payload r e, h)
    step false e h = h

-- What a query that answers with events has done.
pub record Answered (event_id now : String) (operator : OperatorPrincipal)
    (payload : BreakGlassRequest) (table : List AuditEvent) (events : List EventShown) (n : ℕ)
    (after : List AuditEvent) : Type 0 where
  pub counted : n ≡ length events
  pub scoped : All (InScope payload) events
  pub stored : after ≡ insert_row (break_glass_row event_id now operator payload) table
  pub recorded : HasRow (break_glass_row event_id now operator payload) after

respond-events :
    (l events : List EventShown) (n : ℕ)
    → respond l ≡ event_list events n
    → (events ≡ l) × (n ≡ length l)
respond-events [] events n h = absurd (ground arith)
respond-events (e ∷ l) events n h = ground arith

break_glass_query-Answered :
    (outage : Bool) (event_id now : String) (operator : OperatorPrincipal)
    (payload : BreakGlassRequest) (table : List AuditEvent) (events : List EventShown) (n : ℕ)
    (after : List AuditEvent)
    → break_glass_query outage event_id now operator payload table ≡ (event_list events n, after)
    → Answered event_id now operator payload table events n after
unfolding break_glass_query
break_glass_query-Answered true event_id now operator payload table events n after h =
    absurd (ground arith)
break_glass_query-Answered false event_id now operator payload table events n after h =
    let stored = insert_row (break_glass_row event_id now operator payload) table in
    let e : stored ≡ after = ap (λ r. r.1) h in
    let r =
      respond-events (events_of (keep_if (in_scope payload) stored)) events n (ap (λ r. r.0) h) in
    record {
      counted = r.1 ∙ ap length (sym r.0);
      scoped = rw r.0 (kept-InScope payload stored);
      stored = sym e;
      recorded = rw (sym e) (insert_row-HasRow _ table);
    }

module _ {K C : Type 0} (lib : JwtLibrary K C) where
  -- Whom the route answers: a bearer of a token that the operators' verifier trusts.
  pub record Admitted (verifier : JwtVerifier C) (credentials : Option Credentials)
      (operator : OperatorPrincipal) : Type 0 where
    pub given : Credentials
    pub is_given : credentials ≡ some given
    pub principal : Principal
    pub trusted : Trusted lib verifier given.credentials principal
    pub subject : operator.subject ≡ principal.subject

  caught-inr :
      (r : (Raised ⊎ Principal) × JwtVerifier C) (p : Principal)
      → (caught lib r).0 ≡ inr p
      → r.0 ≡ inr p
  caught-inr (inl e, v) p h = absurd (ground arith)
  caught-inr (inr q, v) p h = ground arith

  as_operator-inr :
      (r : (Refusal ⊎ Principal) × JwtVerifier C) (o : OperatorPrincipal)
      → (as_operator lib r).0 ≡ inr o
      → (p : Principal) × (r.0 ≡ inr p) × (o.subject ≡ p.subject)
  as_operator-inr (inl e, v) o h = absurd (ground arith)
  as_operator-inr (inr p, v) o h = (p, refl, ground arith)

  authenticated-verified :
      (c : Option Credentials) (v : JwtVerifier C) (p : Principal)
      → (authenticated_principal lib c v).0 ≡ inr p
      → (given : Credentials) × (c ≡ some given) × ((verify lib given.credentials v).0 ≡ inr p)
  unfolding authenticated_principal
  authenticated-verified none v p h = absurd (ground arith)
  authenticated-verified (some c) v p h = elim (Bool-cases (is_bearer c)) [
    | inl e ↦ (c, refl, caught-inr (verify lib c.credentials v) p (rw e at h))
    | inr e ↦ absurd (ground arith)
  ]

  operator-Admitted :
      (c : Option Credentials) (v : JwtVerifier C) (o : OperatorPrincipal)
      → (authenticated_operator_principal lib c v).0 ≡ inr o
      → Admitted v c o
  unfolding authenticated_operator_principal
  operator-Admitted c v o h =
      let p = as_operator-inr (authenticated_principal lib c v) o h in
      let g = authenticated-verified c v p.0 p.1 in
      record {
        given = g.0;
        is_given = g.1;
        principal = p.0;
        trusted = verified_only_if_Trusted lib v g.0.credentials p.0 g.2;
        subject = p.2;
      }

  handled-Answered :
      (outage : Bool) (event_id now : String) (payload : BreakGlassRequest)
      (table : List AuditEvent) (r : (Refusal ⊎ OperatorPrincipal) × JwtVerifier C)
      (events : List EventShown) (n : ℕ) (after : List AuditEvent)
      → handled lib outage event_id now payload table r ≡ (event_list events n, after)
      → (o : OperatorPrincipal) × (r.0 ≡ inr o)
        × Answered event_id now o payload table events n after
  handled-Answered outage event_id now payload table (inl e, v) events n after h =
      absurd (ground arith)
  handled-Answered outage event_id now payload table (inr o, v) events n after h =
      (o, refl, break_glass_query-Answered outage event_id now o payload table events n after h)

  -- Events are answered only to the bearer of a token that the operators' verifier trusts; all
  -- of them are of the tenant and the correlation asked for, their number is right, and a break-
  -- glass row of that correlation is in the audit trail afterwards.
  pub break_glass-Answered :
      (outage : Bool) (event_id now : String) (credentials : Option Credentials)
      (verifier : JwtVerifier C) (payload : BreakGlassRequest) (table : List AuditEvent)
      (events : List EventShown) (n : ℕ) (after : List AuditEvent)
      → break_glass lib outage event_id now credentials verifier payload table
        ≡ (event_list events n, after)
      → (o : OperatorPrincipal) × Admitted verifier credentials o
        × Answered event_id now o payload table events n after
  unfolding break_glass
  break_glass-Answered outage event_id now credentials verifier payload table events n after h =
      let a =
        handled-Answered outage event_id now payload table
          (authenticated_operator_principal lib credentials verifier) events n after h in
      (a.0, operator-Admitted credentials verifier a.0 a.1, a.2)
