-- ===== src/Query/Trail.antt =====
-- Whose rows audit_for_correlation shows.
use snts_collectmind.Prelude.{
  ◌≤◌, ◌&&◌, true, List, [], ◌∷◌, ◌++◌, String, Text, codes, all, length, leb, leb→le, ◌≡◌, refl,
  ap, ◌↔◌, ◌⊎◌, inl, inr, arith, All, Bool-cases, ◌==◌, eq_iff,
}
use snts_collectmind.Prelude.Rows.{both, Holds, keep_if-Holds, Holds-keep_if}
use snts_collectmind.Routes.{id_char, without_newline}
use snts_collectmind.Registry.Audit.{AuditEvent, list_for_correlation}
use snts_collectmind.Query.{safe_id, Answer, not_found, content, unless_none, audit_for_correlation}

-- The event is in the answer.
abbrev pub Shows : AuditEvent → Answer (List AuditEvent) → Type 0
Shows e (not_found kind value) = ⊥
Shows e (content events) = Holds e events

abbrev pub Clean : Text → Type 0
Clean s = All (λ c. id_char c ≡ true) s × (1 ≤ length s) × (length s ≤ 256)

-- 1 to 256 characters of the class, with a newline at the end at most.
abbrev pub IsSafe : Text → Type 0
IsSafe value = (s : Text) × ((value ≡ s) ⊎ (value ≡ (s ++ (10 ∷ [])))) × Clean s

without_newline-cut :
    (value : Text)
    → (value ≡ without_newline value) ⊎ (value ≡ (without_newline value ++ (10 ∷ [])))
unfolding without_newline
without_newline-cut [] = inl refl
without_newline-cut (c ∷ []) = ground arith
without_newline-cut (c ∷ d ∷ s) = elim (without_newline-cut (d ∷ s)) [
  | inl e ↦ inl (ap (λ t. c ∷ t) e)
  | inr e ↦ inr (ap (λ t. c ∷ t) e)
]

without_newline-clean : (s : Text) → All (λ c. id_char c ≡ true) s → without_newline s ≡ s
unfolding without_newline
without_newline-clean [] h = refl
without_newline-clean (c ∷ []) h = ground arith
without_newline-clean (c ∷ d ∷ s) h = ap (λ t. c ∷ t) (without_newline-clean (d ∷ s) h.1)

without_newline-append : (s : Text) → without_newline (s ++ (10 ∷ [])) ≡ s
unfolding without_newline
without_newline-append [] = refl
without_newline-append (c ∷ []) = refl
without_newline-append (c ∷ d ∷ s) = ap (λ t. c ∷ t) (without_newline-append (d ∷ s))

all-All : (s : Text) → all id_char s ≡ true → All (λ c. id_char c ≡ true) s
all-All [] h = tt
all-All (c ∷ s) h = let k = both (id_char c) (all id_char s) h in (k.0, all-All s k.1)

All-all : (s : Text) → All (λ c. id_char c ≡ true) s → all id_char s ≡ true
All-all [] h = refl
All-all (c ∷ s) h = rw h.0 (All-all s h.1)

Clean-test : (s : Text) → Clean s → (all id_char s && leb 1 (length s) && leb (length s) 256) ≡ true
Clean-test s h = rw (All-all s h.0) (ground (arith, h.1))

test-Clean : (s : Text) → (all id_char s && leb 1 (length s) && leb (length s) 256) ≡ true → Clean s
test-Clean s h =
    let k = both (all id_char s && leb 1 (length s)) (leb (length s) 256) h in
    let l = both (all id_char s) (leb 1 (length s)) k.0 in
    (all-All s l.0, leb→le 1 (length s) l.1, leb→le (length s) 256 k.1)

safe_id-IsSafe : (value : Text) → (safe_id value ≡ true) ↔ IsSafe value
unfolding safe_id
safe_id-IsSafe value = (
  λ h. (without_newline value, without_newline-cut value, test-Clean (without_newline value) h),
  λ h. elim h.1 [
    | inl e ↦ rw e (rw (without_newline-clean h.0 h.2.0) (Clean-test h.0 h.2))
    | inr e ↦ rw e (rw (without_newline-append h.0) (Clean-test h.0 h.2))
  ],
)

Shows-unless_none :
    (e : AuditEvent) (kind value : String) (events : List AuditEvent)
    → Shows e (unless_none kind value events) ↔ Holds e events
unfolding unless_none
Shows-unless_none e kind value [] = (λ h. h, λ h. h)
Shows-unless_none e kind value (r ∷ events) = (λ h. h, λ h. h)

-- The rows of the tenant and the correlation.
abbrev pub IsOf : String → String → AuditEvent → Type 0
IsOf tenant_id correlation_id e =
    (e.written.tenant_id ≡ tenant_id) × (e.written.correlation_id ≡ correlation_id)

list_for_correlation-Holds :
    (tenant_id correlation_id : String) (e : AuditEvent) (table : List AuditEvent)
    → Holds e (list_for_correlation tenant_id correlation_id table)
      ↔ (Holds e table × IsOf tenant_id correlation_id e)
unfolding list_for_correlation
list_for_correlation-Holds tenant_id correlation_id e table = (
  λ h.
      let k = keep_if-Holds e _ table h in
      let l = both (e.written.tenant_id == tenant_id) _ k.1 in
      let l2 = both (e.written.tenant_id == tenant_id) _ l.1 in
      (
        k.0,
        (
          (eq_iff e.written.tenant_id tenant_id).0 l.0,
          (eq_iff e.written.correlation_id correlation_id).0 l2.1,
        ),
      ),
  λ h.
      let t = (eq_iff e.written.tenant_id tenant_id).1 h.1.0 in
      let c = (eq_iff e.written.correlation_id correlation_id).1 h.1.1 in
      Holds-keep_if e _ table h.0 (rw t c),
)

-- A row is shown exactly when it is in the table, belongs to the principal's tenant and has the
-- correlation asked for, and that identifier is 1 to 256 letters, digits, dashes, dots and
-- underscores, with a newline at the end at most.
pub audit_for_correlation_iff :
    (tenant_id correlation_id : String) (table : List AuditEvent) (e : AuditEvent)
    → Shows e (audit_for_correlation tenant_id correlation_id table)
      ↔ (IsSafe (codes correlation_id) × Holds e table × IsOf tenant_id correlation_id e)
unfolding audit_for_correlation
audit_for_correlation_iff tenant_id correlation_id table e =
    let rows = list_for_correlation tenant_id correlation_id table in
    let shown = Shows-unless_none e "correlation_id" correlation_id rows in
    let held = list_for_correlation-Holds tenant_id correlation_id e table in
    let safe = safe_id-IsSafe (codes correlation_id) in
    elim (Bool-cases (safe_id (codes correlation_id))) [
      | inl q ↦ rw q (
        λ h. let k = held.0 (shown.0 h) in (safe.0 q, k.0, k.1),
        λ h. shown.1 (held.1 (h.1, h.2)),
      )
      | inr q ↦ rw q (λ h. absurd h, λ h. let k = safe.1 h.0 in absurd (ground arith))
    ]
