-- ===== src/Registry/Audit/Complete.antt =====
-- The minimum fields of the rows of AuditEventWriter.write.
use snts_collectmind.Prelude.{
  true, false, not, Option, none, some, List, [], ◌∷◌, String, keep_if, ◌==◌, ◌⊎◌, sym, ◌∙◌, inl,
  inr, ◌≡◌, refl, arith, All, All-append, Bool-cases, Option-cases,
}
use snts_collectmind.Prelude.Json.{Json, Fields, end, field, get}
use snts_collectmind.Registry.Audit.{
  AuditWrite, AuditEvent, AuditError, in_fields, kind_min_fields, missing_slm, missing, or_empty,
  set_default, unless_empty, with_extras, row_of, settle, upsert, unless_missing, write,
}

in_fields-set_default :
    (name key : String) (v : Json) (d : Fields)
    → in_fields name d ≡ true
    → in_fields name (set_default key v d) ≡ true
unfolding in_fields set_default get
in_fields-set_default name key v end h = ground arith
in_fields-set_default name key v (field k u rest) h =
    ground (arith, in_fields-set_default name key v rest)

in_fields-unless_empty :
    (name : String) (d : Fields)
    → in_fields name (or_empty (unless_empty (some d))) ≡ in_fields name d
unfolding in_fields get
in_fields-unless_empty name end = refl
in_fields-unless_empty name (field k v rest) = refl

in_fields-with_extras :
    (name : String) (w : AuditWrite)
    → in_fields name (or_empty w.originating_finding) ≡ true
    → in_fields name (with_extras w) ≡ true
unfolding with_extras
in_fields-with_extras name w h = elim (Option-cases w.error) [
  | inl e ↦ rw e h
  | inr (err, e) ↦ rw e (in_fields-set_default name "_extras" _ _ h)
]

none_missing :
    (names : List String) (before after : Fields)
    → ((name : String) → in_fields name before ≡ true → in_fields name after ≡ true)
    → keep_if (λ name. not (in_fields name before)) names ≡ []
    → keep_if (λ name. not (in_fields name after)) names ≡ []
none_missing [] before after f h = refl
none_missing (name ∷ names) before after f h =
    ground (arith, f name, none_missing names before after f)

-- The row carries its minimum fields.
abbrev pub IsComplete : AuditEvent → Type 0
IsComplete r = missing r.written ≡ []

missing-kind :
    (w : AuditWrite) (names : List String)
    → (w.kind == "generated") ≡ false
    → kind_min_fields w.kind ≡ some names
    → missing w ≡ keep_if (λ name. not (in_fields name (or_empty w.originating_finding))) names
unfolding missing
missing-kind w names e f = rw e (rw f refl)

missing-row_of :
    (id now : String) (w : AuditWrite) → missing w ≡ [] → missing (row_of id now w).written ≡ []
unfolding missing missing_slm row_of
missing-row_of id now w h = elim (Bool-cases (w.kind == "generated")) [
  | inl e ↦ ground arith
  | inr e ↦ elim (Option-cases (kind_min_fields w.kind)) [
    | inl f ↦ ground arith
    | inr (names, f) ↦
        missing-kind (row_of id now w).written names e f
        ∙ none_missing names (or_empty w.originating_finding) _
            (λ name k. in_fields-unless_empty name (with_extras w) ∙ in_fields-with_extras name w k)
            (sym (missing-kind w names e f) ∙ h)
  ]
]

abbrev pub AllComplete : AuditError ⊎ (String × List AuditEvent) → Type 0
AllComplete (inl e) = Unit
AllComplete (inr (id, after)) = All IsComplete after

settle-AllComplete :
    (hit seen : Option AuditEvent) (row : AuditEvent) (table : List AuditEvent)
    → All IsComplete table
    → IsComplete row
    → AllComplete (settle hit seen row table)
settle-AllComplete none seen row table h k = All-append IsComplete table (row ∷ []) h (k, tt)
settle-AllComplete (some other) none row table h k = tt
settle-AllComplete (some other) (some existing) row table h k = h

only_if_complete :
    (names : List String) (r : AuditError ⊎ (String × List AuditEvent))
    → (names ≡ [] → AllComplete r)
    → AllComplete (unless_missing names r)
only_if_complete [] r h = h refl
only_if_complete (name ∷ names) r h = tt

-- A write never leaves a row without the minimum fields of its kind: it raises, or every row of the
-- table is complete after it if every row was before.
pub write-AllComplete :
    (id now : String) (w : AuditWrite) (table : List AuditEvent)
    → All IsComplete table
    → AllComplete (write id now w table)
unfolding write upsert
write-AllComplete id now w table h =
    let row = row_of id now w in
    only_if_complete (missing w) _
      (λ m. settle-AllComplete _ _ row table h (missing-row_of id now w m))
