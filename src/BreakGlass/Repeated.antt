-- ===== src/BreakGlass/Repeated.antt =====
-- The break-glass read of a correlation, the first time and later on.
use snts_collectmind.Prelude.{
  true, false, none, some, List, [], ◌∷◌, ◌++◌, String, ◌≡◌, ◌≢◌, refl, sym, ap, keep_if-append,
  keep_if-one, ◌∙◌, arith, eq_refl, keep_if,
}
use snts_collectmind.Registry.Audit.{AuditEvent, find_row, same_key}
use snts_collectmind.Auth.Principals.{OperatorPrincipal}
use snts_collectmind.BreakGlass.{
  BreakGlassRequest, EventShown, no_events, break_glass_row, insert_row, in_scope, shown, events_of,
  respond, break_glass_query,
}

-- If a break-glass row of the correlation is in the trail, whoever wrote it and for whatever
-- tenant, a query leaves the trail as it is and answers all the same with the rows of the tenant
-- asked for.
pub repeated_query_unrecorded :
    (event_id now : String) (operator : OperatorPrincipal) (payload : BreakGlassRequest)
    (table : List AuditEvent) (row : AuditEvent)
    → find_row (same_key payload.correlation_id "break_glass") table ≡ some row
    → break_glass_query false event_id now operator payload table
      ≡ (respond (events_of (keep_if (in_scope payload) table)), table)
unfolding break_glass_query insert_row break_glass_row
repeated_query_unrecorded event_id now operator payload table row h = rw h refl

in_scope_self :
    (event_id now : String) (operator : OperatorPrincipal) (payload : BreakGlassRequest)
    → in_scope payload (break_glass_row event_id now operator payload) ≡ true
unfolding break_glass_row
in_scope_self event_id now operator payload =
    rw (eq_refl payload.tenant_scope) (eq_refl payload.correlation_id)

respond-append : (l : List EventShown) (e : EventShown) → (respond (l ++ (e ∷ [])) ≢ no_events)
respond-append [] e h = absurd (ground (arith, h))
respond-append (x ∷ l) e h = absurd (ground (arith, h))

events_of-append : (xs ys : List AuditEvent) → events_of (xs ++ ys) ≡ (events_of xs ++ events_of ys)
unfolding events_of
events_of-append [] ys = refl
events_of-append (r ∷ xs) ys = ap (λ l. shown r ∷ l) (events_of-append xs ys)

events_with_own :
    (payload : BreakGlassRequest) (table : List AuditEvent) (row : AuditEvent)
    → in_scope payload row ≡ true
    → events_of (keep_if (in_scope payload) (table ++ (row ∷ [])))
      ≡ (events_of (keep_if (in_scope payload) table) ++ (shown row ∷ []))
unfolding events_of
events_with_own payload table row h =
    rw (keep_if-append (in_scope payload) table (row ∷ []), keep_if-one (in_scope payload) row h)
      (events_of-append (keep_if (in_scope payload) table) (row ∷ []))

first_query-eq :
    (event_id now : String) (operator : OperatorPrincipal) (payload : BreakGlassRequest)
    (table : List AuditEvent)
    → find_row (same_key payload.correlation_id "break_glass") table ≡ none
    → break_glass_query false event_id now operator payload table ≡ (
      respond (
          events_of (keep_if (in_scope payload) table)
          ++ (shown (break_glass_row event_id now operator payload) ∷ [])),
      table ++ (break_glass_row event_id now operator payload ∷ []),
    )
unfolding break_glass_query insert_row break_glass_row
first_query-eq event_id now operator payload table h = rw h (
    ap (λ l. (respond l, table ++ (break_glass_row event_id now operator payload ∷ [])))
      (events_with_own payload table (break_glass_row event_id now operator payload)
        (in_scope_self event_id now operator payload)))

-- The first query of a correlation always answers with events, its own row among them as the
-- last: it is never told that there are none, whatever the tenant asked for has.
pub first_query_finds_itself :
    (event_id now : String) (operator : OperatorPrincipal) (payload : BreakGlassRequest)
    (table : List AuditEvent)
    → find_row (same_key payload.correlation_id "break_glass") table ≡ none
    → (break_glass_query false event_id now operator payload table ≡ (
      respond (
          events_of (keep_if (in_scope payload) table)
          ++ (shown (break_glass_row event_id now operator payload) ∷ [])),
      table ++ (break_glass_row event_id now operator payload ∷ []),
    ))
      × ((break_glass_query false event_id now operator payload table).0 ≢ no_events)
first_query_finds_itself event_id now operator payload table h =
    let e = first_query-eq event_id now operator payload table h in
    (
      e,
      λ z.
          respond-append (events_of (keep_if (in_scope payload) table))
            (shown (break_glass_row event_id now operator payload)) (sym (ap (λ r. r.0) e) ∙ z),
    )
