-- ===== src/Registry/Migrations/RolledBack.antt =====
-- A migration applied and rolled back.
use snts_collectmind.Prelude.{
  true, false, not, Option, some, List, [], ◌∷◌, ◌++◌, Text, keep_if, text_eq, text_eq_refl,
  text_eq-eq, ◌≡◌, refl, sym, ap, ◌∙◌, arith, Bool-cases, Option-cases, inl, inr, keep_if-append,
}
use snts_collectmind.Registry.Migrations.{
  Migration, MigrationDb, rows_of, versions, in_versions, done, apply_one, apply_all, apply_pending,
  by_version, delete_version, with_target, with_down, rollback_one,
}

by_version-version :
    (version : Text) (migrations : List Migration) (m : Migration)
    → by_version version migrations ≡ some m
    → m.version ≡ version
unfolding by_version
by_version-version version [] m h = absurd (ground arith)
by_version-version version (q ∷ migrations) m h =
    elim (Option-cases (by_version version migrations)) [
      | inl e ↦ elim (Bool-cases (text_eq q.version version)) [
        | inl f ↦
            let w : q ≡ m = ground arith in
            ap (λ x. x.version) (sym w) ∙ text_eq-eq q.version version f
        | inr f ↦ absurd (ground arith)
      ]
      | inr (l, e) ↦
          let w : l ≡ m = ground arith in by_version-version version migrations m (e ∙ ap some w)
    ]

text_eq_sym : (a b : Text) → text_eq a b ≡ text_eq b a
text_eq_sym a b = elim (Bool-cases (text_eq a b)) [
  | inl e ↦ let w = text_eq-eq a b e in rw w refl
  | inr e ↦ elim (Bool-cases (text_eq b a)) [
    | inl f ↦ let w = text_eq-eq b a f in rw w refl
    | inr f ↦ e ∙ sym f
  ]
]

-- The deletion of a version that no row has changes nothing.
delete-fresh :
    (version : Text) (rows : List (Text × Text))
    → in_versions version (versions rows) ≡ false
    → delete_version version rows ≡ rows
unfolding delete_version
delete-fresh version [] h = refl
delete-fresh version (r ∷ rows) h =
    ground (arith, text_eq_sym version r.0, delete-fresh version rows)

append-nil-of : {A : Type 0} (l : List A) → l ++ [] ≡ l
append-nil-of [] = refl
append-nil-of (x ∷ l) = ap (λ t. x ∷ t) (append-nil-of l)

delete-appended :
    (version name : Text) (rows : List (Text × Text))
    → in_versions version (versions rows) ≡ false
    → delete_version version (rows ++ ((version, name) ∷ [])) ≡ rows
unfolding delete_version
delete-appended version name rows h =
    rw (keep_if-append (λ (r : Text × Text). not (text_eq r.0 version)) rows ((version, name) ∷ []))
      (ground (
        arith,
        text_eq_refl version,
        append-nil-of (keep_if (λ (r : Text × Text). not (text_eq r.0 version)) rows),
        delete-fresh version rows h,
      ))

in_versions-appended :
    (version name : Text) (rows : List (Text × Text))
    → in_versions version (versions (rows ++ ((version, name) ∷ []))) ≡ true
in_versions-appended version name [] = ground (arith, text_eq_refl version)
in_versions-appended version name (r ∷ rows) =
    ground (arith, in_versions-appended version name rows)

-- The two calls, over the rows.
module _ {S : Type 0} (execute : Text → S → Option S) (schema upgraded : S)
    (rows : List (Text × Text)) where
  applied_alone :
      (m : Migration)
      → in_versions m.version (versions rows) ≡ false
      → execute m.up_path schema ≡ some upgraded
      → apply_all execute (versions rows) (m ∷ []) [] schema rows
        ≡ done (m.version ∷ []) upgraded (rows ++ ((m.version, m.name) ∷ []))
  unfolding apply_all apply_one
  applied_alone m f e = rw f (rw e (rw f refl))

  rolled_back :
      (version name down : Text)
      → in_versions version (versions rows) ≡ false
      → execute down upgraded ≡ some schema
      → with_down execute version (some down) upgraded (rows ++ ((version, name) ∷ []))
        ≡ some (done (version ∷ []) schema rows)
  rolled_back version name down f e =
      rw (in_versions-appended version name rows)
        (rw e (ap (λ l. some (done (version ∷ []) schema l)) (delete-appended version name rows f)))

module _ {S : Type 0} (execute : Text → S → Option S) where
  -- A migration with its inverse, not yet applied.
  pub record CanGoBack (version : Text) (discovered : List Migration) (db : MigrationDb S)
      (m : Migration) (down : Text) (upgraded : S) : Type 0 where
    pub target : by_version version discovered ≡ some m
    pub inverse : m.down_path ≡ some down
    pub fresh : in_versions version (versions (rows_of db.schema_migrations)) ≡ false
    pub up : execute m.up_path db.schema ≡ some upgraded
    pub back : execute down upgraded ≡ some db.schema

  -- A migration that is not applied yet, whose files undo one another: applied, and then rolled
  -- back, it leaves the schema and the recorded versions as they were.
  pub rollback-apply :
      (version : Text) (discovered : List Migration) (db : MigrationDb S) (m : Migration)
      (down : Text) (upgraded : S)
      → CanGoBack version discovered db m down upgraded
      → (rows : List (Text × Text)) × (apply_pending execute (some (m ∷ [])) discovered db
          ≡ done (version ∷ []) upgraded rows)
        × (rollback_one execute version discovered
              (record { schema = upgraded; schema_migrations = some rows })
            ≡ some (done (version ∷ []) db.schema (rows_of db.schema_migrations)))
  unfolding apply_pending apply_all apply_one rollback_one
  rollback-apply version discovered db m down upgraded h =
      let v = by_version-version version discovered m h.target in
      let rows = rows_of db.schema_migrations in
      (
        rows ++ ((version, m.name) ∷ []),
        applied_alone execute db.schema upgraded rows m
              (ap (λ w. in_versions w (versions rows)) v ∙ h.fresh) h.up
            ∙ ap (λ w. done (w ∷ []) upgraded (rows ++ ((w, m.name) ∷ []))) v,
        ap (λ t. with_target execute version t upgraded (rows ++ ((version, m.name) ∷ []))) h.target
            ∙ ap (λ d. with_down execute version d upgraded (rows ++ ((version, m.name) ∷ [])))
                h.inverse
            ∙ rolled_back execute db.schema upgraded rows version m.name down h.fresh h.back,
      )
