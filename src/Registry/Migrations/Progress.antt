-- ===== src/Registry/Migrations/Progress.antt =====
-- How far apply_pending gets.
use snts_collectmind.Prelude.{
  true, false, ◌||◌, Option, none, some, List, [], ◌∷◌, ◌++◌, Text, text_eq, text_eq_refl, ◌≡◌,
  refl, sym, ap, ◌∙◌, arith, All, Bool-cases, Option-cases, inl, inr,
}
use snts_collectmind.Registry.Migrations.{
  Migration, MigrationDb, rows_of, versions, in_versions, done, raised, apply_one, apply_all,
  or_discovered, apply_pending,
}

module _ {S : Type 0} (execute : Text → S → Option S) where
  -- What is left after a call: the version of each row that was there is still in.
  abbrev Includes : List Text → List Text → Type 0
  Includes vs ws = (v : Text) → in_versions v vs ≡ true → in_versions v ws ≡ true

  in_versions-append :
      (v : Text) (rows : List (Text × Text)) (r : Text × Text)
      → in_versions v (versions (rows ++ (r ∷ [])))
        ≡ (in_versions v (versions rows) || text_eq v r.0)
  in_versions-append v [] r = ground arith
  in_versions-append v (q ∷ rows) r = ground (arith, in_versions-append v rows r)

  -- A step that does not raise: the row is new, and is the last.
  apply_one-rows :
      (m : Migration) (schema : S) (rows : List (Text × Text)) (out : S × List (Text × Text))
      → apply_one execute m schema rows ≡ some out
      → out.1 ≡ (rows ++ ((m.version, m.name) ∷ []))
  unfolding apply_one
  apply_one-rows m schema rows out h = elim (Option-cases (execute m.up_path schema)) [
    | inl e ↦ absurd (ground arith)
    | inr (s, e) ↦ elim (Bool-cases (in_versions m.version (versions rows))) [
      | inl f ↦ absurd (ground arith)
      | inr f ↦ ground arith
    ]
  ]

  -- Where a call stops: before a migration that is pending and whose transaction raises.
  pub record StoppedAt (existing : List Text) (migrations : List Migration) (applied : List Text)
      (schema : S) (rows : List (Text × Text)) (schema' : S) (rows' : List (Text × Text))
      : Type 0 where
    pub before : List Migration
    pub failing : Migration
    pub after : List Migration
    pub parts : migrations ≡ (before ++ (failing ∷ after))
    pub reached : List Text
    pub ran : apply_all execute existing before applied schema rows ≡ done reached schema' rows'
    pub pending : in_versions failing.version existing ≡ false
    pub raises : apply_one execute failing schema' rows' ≡ none

  stopped_later :
      (m : Migration) (existing : List Text) (migrations : List Migration)
      (applied applied1 : List Text) (schema schema1 schema' : S)
      (rows rows1 rows' : List (Text × Text))
      → ((l : List Migration)
          → apply_all execute existing (m ∷ l) applied schema rows
            ≡ apply_all execute existing l applied1 schema1 rows1)
      → StoppedAt existing migrations applied1 schema1 rows1 schema' rows'
      → StoppedAt existing (m ∷ migrations) applied schema rows schema' rows'
  stopped_later m existing migrations applied applied1 schema schema1 schema' rows rows1 rows' step
        st =
      record {
        before = m ∷ st.before;
        failing = st.failing;
        after = st.after;
        parts = ap (λ l. m ∷ l) st.parts;
        reached = st.reached;
        ran = step st.before ∙ st.ran;
        pending = st.pending;
        raises = st.raises;
      }

  -- The two steps of the loop that go on.
  skip-eq :
      (m : Migration) (existing applied : List Text) (schema : S) (rows : List (Text × Text))
      → in_versions m.version existing ≡ true
      → (l : List Migration)
      → apply_all execute existing (m ∷ l) applied schema rows
        ≡ apply_all execute existing l applied schema rows
  unfolding apply_all
  skip-eq m existing applied schema rows h l = rw h refl

  step-eq :
      (m : Migration) (existing applied : List Text) (schema : S) (rows : List (Text × Text))
      (out : S × List (Text × Text))
      → in_versions m.version existing ≡ false
      → apply_one execute m schema rows ≡ some out
      → (l : List Migration)
      → apply_all execute existing (m ∷ l) applied schema rows
        ≡ apply_all execute existing l (applied ++ (m.version ∷ [])) out.0 out.1
  unfolding apply_all
  step-eq m existing applied schema rows out h k l = rw h (rw k refl)

  raise-eq :
      (m : Migration) (existing applied : List Text) (schema : S) (rows : List (Text × Text))
      → in_versions m.version existing ≡ false
      → apply_one execute m schema rows ≡ none
      → (l : List Migration)
      → apply_all execute existing (m ∷ l) applied schema rows ≡ raised schema rows
  unfolding apply_all
  raise-eq m existing applied schema rows h k l = rw h (rw k refl)

  apply_all-StoppedAt :
      (existing : List Text) (migrations : List Migration) (applied : List Text) (schema : S)
      (rows : List (Text × Text)) (schema' : S) (rows' : List (Text × Text))
      → apply_all execute existing migrations applied schema rows ≡ raised schema' rows'
      → StoppedAt existing migrations applied schema rows schema' rows'
  apply_all-StoppedAt existing [] applied schema rows schema' rows' h =
      absurd (unfold apply_all in ground arith)
  apply_all-StoppedAt existing (m ∷ migrations) applied schema rows schema' rows' h =
      elim (Bool-cases (in_versions m.version existing)) [
        | inl e ↦
            let step = skip-eq m existing applied schema rows e in
            stopped_later m existing migrations applied applied schema schema schema' rows rows
              rows' step
              (apply_all-StoppedAt existing migrations applied schema rows schema' rows'
                (sym (step migrations) ∙ h))
        | inr e ↦ elim (Option-cases (apply_one execute m schema rows)) [
          | inl f ↦
              let stop = sym (raise-eq m existing applied schema rows e f migrations) ∙ h in
              record {
                before = [];
                failing = m;
                after = migrations;
                parts = refl;
                reached = applied;
                ran = unfold apply_all in ground (arith, stop);
                pending = e;
                raises =
                    let s : schema ≡ schema' = ground (arith, stop) in
                    let r : rows ≡ rows' = ground (arith, stop) in rw (sym s, sym r) f;
              }
          | inr (out, f) ↦
              let step = step-eq m existing applied schema rows out e f in
              stopped_later m existing migrations applied (applied ++ (m.version ∷ [])) schema out.0
                schema' rows out.1 rows' step
                (apply_all-StoppedAt existing migrations (applied ++ (m.version ∷ [])) out.0 out.1
                  schema' rows' (sym (step migrations) ∙ h))
        ]
      ]

  -- A call that returns leaves all its migrations recorded, and forgets none.
  record IsComplete (migrations : List Migration) (rows rows' : List (Text × Text)) : Type 0 where
    grows : Includes (versions rows) (versions rows')
    all_in : All (λ m. in_versions m.version (versions rows') ≡ true) migrations

  apply_all-IsComplete :
      (existing : List Text) (migrations : List Migration) (applied : List Text) (schema : S)
      (rows : List (Text × Text)) (v : List Text) (schema' : S) (rows' : List (Text × Text))
      → apply_all execute existing migrations applied schema rows ≡ done v schema' rows'
      → Includes existing (versions rows)
      → IsComplete migrations rows rows'
  apply_all-IsComplete existing [] applied schema rows v schema' rows' h i =
      let r : rows ≡ rows' = unfold apply_all in ground arith in
      record { grows = λ w k. rw (sym r) k; all_in = tt }
  apply_all-IsComplete existing (m ∷ migrations) applied schema rows v schema' rows' h i =
      elim (Bool-cases (in_versions m.version existing)) [
        | inl e ↦
            let rest =
              apply_all-IsComplete existing migrations applied schema rows v schema' rows'
                (sym (skip-eq m existing applied schema rows e migrations) ∙ h) i in
            record {
              grows = rest.grows;
              all_in = (rest.grows m.version (i m.version e), rest.all_in);
            }
        | inr e ↦ elim (Option-cases (apply_one execute m schema rows)) [
          | inl f ↦
              let stop = sym (raise-eq m existing applied schema rows e f migrations) ∙ h in
              absurd (ground (arith, stop))
          | inr (out, f) ↦
              let q = apply_one-rows m schema rows out f in
              let more : Includes (versions rows) (versions out.1) =
                λ w k. rw q (in_versions-append w rows (m.version, m.name) ∙ ground arith) in
              let own : in_versions m.version (versions out.1) ≡ true = rw q (
                in_versions-append m.version rows (m.version, m.name)
                ∙ ground (arith, text_eq_refl m.version)) in
              let rest =
                apply_all-IsComplete existing migrations (applied ++ (m.version ∷ [])) out.0 out.1 v
                  schema' rows'
                  (sym (step-eq m existing applied schema rows out e f migrations) ∙ h)
                  (λ w k. more w (i w k)) in
              record {
                grows = λ w k. rest.grows w (more w k);
                all_in = (rest.grows m.version own, rest.all_in);
              }
        ]
      ]

  nothing_left :
      (existing : List Text) (migrations : List Migration) (applied : List Text) (schema : S)
      (rows : List (Text × Text))
      → All (λ m. in_versions m.version existing ≡ true) migrations
      → apply_all execute existing migrations applied schema rows ≡ done applied schema rows
  nothing_left existing [] applied schema rows h = unfold apply_all in refl
  nothing_left existing (m ∷ migrations) applied schema rows h =
      skip-eq m existing applied schema rows h.0 migrations
      ∙ nothing_left existing migrations applied schema rows h.1

  -- A call that raises stops at one pending migration: those before it are applied, as a call
  -- with them alone would have done, the failing one leaves nothing, and none after it is tried.
  pub failure_stops :
      (migrations : Option (List Migration)) (discovered : List Migration) (db : MigrationDb S)
      (schema : S) (rows : List (Text × Text))
      → apply_pending execute migrations discovered db ≡ raised schema rows
      → StoppedAt
          (versions (rows_of db.schema_migrations))
          (or_discovered migrations discovered)
          []
          db.schema
          (rows_of db.schema_migrations)
          schema
          rows
  unfolding apply_pending
  failure_stops migrations discovered db schema rows h = apply_all-StoppedAt _ _ _ _ _ schema rows h

  -- A call after one that returned, with the same migrations, applies nothing and changes nothing.
  pub rerun_applies_nothing :
      (migrations : Option (List Migration)) (discovered : List Migration) (db : MigrationDb S)
      (v : List Text) (schema : S) (rows : List (Text × Text))
      → apply_pending execute migrations discovered db ≡ done v schema rows
      → apply_pending execute migrations discovered
          (record { schema = schema; schema_migrations = some rows })
        ≡ done [] schema rows
  unfolding apply_pending
  rerun_applies_nothing migrations discovered db v schema rows h =
      nothing_left (versions rows) (or_discovered migrations discovered) [] schema rows
        (apply_all-IsComplete _ (or_discovered migrations discovered) [] db.schema
          (rows_of db.schema_migrations) v schema rows h (λ w k. k)).all_in
