-- ===== src/Runbooks/Complete.antt =====
-- When scripts/check_runbook_completeness.py has nothing to report.
use snts_collectmind.Prelude.{
  ℕ, Bool, true, false, not, Option, none, some, List, [], ◌∷◌, ◌++◌, Text, text_eq, is_empty,
  keep_if, any, if◌then◌else◌, ◌≡◌, refl, arith, ◌⊎◌, inl, inr, ◌↔◌, All, Bool-cases,
}
use snts_collectmind.Runbooks.{
  Group, Alert, Entry, missing_summary, required_sections, resolve_runbook_target, iter_alerts,
  has_section_from, sections_missing, page_errors, unset, url_errors, alert_errors, is_page,
  refers_to, is_orphan, find_orphan_runbooks, orphan_errors, check,
}

append-nil : {A : Type 0} (xs ys : List A) → xs ++ ys ≡ [] → (xs ≡ []) × (ys ≡ [])
append-nil [] ys h = (refl, h)
append-nil (x ∷ xs) ys h = absurd (ground arith)

keep_if-nil :
    {A : Type 0} (p : A → Bool) (l : List A)
    → keep_if (λ x. not (p x)) l ≡ []
    → All (λ x. p x ≡ true) l
keep_if-nil p [] h = tt
keep_if-nil p (x ∷ l) h = elim (Bool-cases (p x)) [
  | inl e ↦ (e, keep_if-nil p l (ground arith))
  | inr e ↦ absurd (ground arith)
]

List-cases : {A : Type 0} (l : List A) → (l ≡ []) ⊎ ((x : A) × (xs : List A) × (l ≡ x ∷ xs))
List-cases [] = inl refl
List-cases (x ∷ xs) = inr (x, xs, refl)

nil-keep_if :
    {A : Type 0} (p : A → Bool) (l : List A)
    → All (λ x. p x ≡ true) l
    → keep_if (λ x. not (p x)) l ≡ []
nil-keep_if p [] h = refl
nil-keep_if p (x ∷ l) h = ground (arith, nil-keep_if p l h.1)

module _ (is_word : ℕ → Bool) (read : Text → Option Text) where
  -- The alert has a summary and a page that is there, with the four sections.
  pub record HasPage (a : Alert) : Type 0 where
    pub first_char : ℕ
    pub rest : Text
    pub url : a.rule.runbook_url ≡ some (first_char ∷ rest)
    pub summary : unset is_word a.rule.summary ≡ false
    pub body : Text
    pub page : read (resolve_runbook_target (first_char ∷ rest)) ≡ some body
    pub sections : All (λ s. has_section_from is_word true s body ≡ true) required_sections

  abbrev Sectioned : Text → Type 0
  Sectioned body = All (λ s. has_section_from is_word true s body ≡ true) required_sections

  page_errors-nil :
      (a : Alert) (target : Text) (page : Option Text)
      → page_errors is_word a target page ≡ []
      → (body : Text) × (page ≡ some body) × Sectioned body
  page_errors-nil a target none h = absurd (ground arith)
  page_errors-nil a target (some body) h = elim (List-cases (sections_missing is_word body)) [
    | inl e ↦
        (body, refl, keep_if-nil (λ s. has_section_from is_word true s body) required_sections e)
    | inr (s, missing, e) ↦ absurd (ground arith)
  ]

  nil-page_errors :
      (a : Alert) (target body : Text)
      → Sectioned body
      → page_errors is_word a target (some body) ≡ []
  nil-page_errors a target body h =
      ground (arith, nil-keep_if (λ s. has_section_from is_word true s body) required_sections h)

  url_errors-HasPage :
      (a : Alert) (url : Option Text)
      → a.rule.runbook_url ≡ url
      → url_errors is_word read a url ≡ []
      → HasPage a
  url_errors-HasPage a none q h = absurd (ground arith)
  url_errors-HasPage a (some []) q h = absurd (ground arith)
  url_errors-HasPage a (some (c ∷ s)) q h =
      let k =
        append-nil (if unset is_word a.rule.summary then missing_summary a ∷ [] else []) _ h in
      let p = page_errors-nil a _ _ k.1 in
      record {
        first_char = c;
        rest = s;
        url = q;
        summary = ground (arith, k.0);
        body = p.0;
        page = p.1;
        sections = p.2;
      }

  HasPage-url_errors : (a : Alert) → HasPage a → url_errors is_word read a a.rule.runbook_url ≡ []
  HasPage-url_errors a h =
      rw h.url (rw h.summary (rw h.page (nil-page_errors a _ h.body h.sections)))

  alert_errors_iff :
      (alerts : List Alert) → (alert_errors is_word read alerts ≡ []) ↔ All HasPage alerts
  unfolding alert_errors
  alert_errors_iff [] = (λ h. tt, λ h. refl)
  alert_errors_iff (a ∷ alerts) = (
    λ h.
        let k = append-nil (url_errors is_word read a a.rule.runbook_url) _ h in
        (url_errors-HasPage a _ refl k.0, (alert_errors_iff alerts).0 k.1),
    λ h. rw (HasPage-url_errors a h.0) ((alert_errors_iff alerts).1 h.1),
  )

-- A page of the directory is one of an alert, or on the whitelist.
abbrev pub IsCovered : List Alert → List Text → Entry → Type 0
IsCovered alerts whitelist e =
    (e.is_file ≡ true)
    → (is_page e.name ≡ true)
    → (any (text_eq e.name) whitelist ≡ true) ⊎ (any (refers_to e.name) alerts ≡ true)

is_orphan_iff :
    (alerts : List Alert) (whitelist : List Text) (e : Entry)
    → (is_orphan alerts whitelist e ≡ false) ↔ IsCovered alerts whitelist e
is_orphan_iff alerts whitelist e = (λ h f p. ground (arith, h, f, p), λ h. ground (arith, h))

orphans_iff :
    (alerts : List Alert) (whitelist : List Text) (entries : List Entry)
    → (orphan_errors (find_orphan_runbooks alerts entries whitelist) ≡ [])
      ↔ All (IsCovered alerts whitelist) entries
unfolding find_orphan_runbooks
orphans_iff alerts whitelist [] = (λ h. tt, λ h. refl)
orphans_iff alerts whitelist (e ∷ entries) = elim (Bool-cases (is_orphan alerts whitelist e)) [
  | inl o ↦ (
    λ h. absurd (ground (arith, o, h)),
    λ h. absurd (ground (arith, o, (is_orphan_iff alerts whitelist e).1 h.0)),
  )
  | inr o ↦ (
    λ h. (
      (is_orphan_iff alerts whitelist e).0 o,
      (orphans_iff alerts whitelist entries).0 (ground (arith, o, h)),
    ),
    λ h. ground (arith, o, (orphans_iff alerts whitelist entries).1 h.1),
  )
]

-- Both directions hold, for the groups that the rules declare.
pub record IsComplete (is_word : ℕ → Bool) (read : Text → Option Text) (rules : Option (List Group))
    (entries : List Entry) (whitelist : List Text) : Type 0 where
  pub groups : List Group
  pub declared : rules ≡ some groups
  pub some_group : is_empty groups ≡ false
  pub forward : All (HasPage is_word read) (iter_alerts groups)
  pub backward : All (IsCovered (iter_alerts groups) whitelist) entries

-- The check reports nothing exactly when the rules declare a group, each alert has a summary and a
-- page with the four sections, and each page of the directory is one of an alert or is on the
-- whitelist.
pub check-IsComplete :
    (is_word : ℕ → Bool) (read : Text → Option Text) (rules : Option (List Group))
    (entries : List Entry) (whitelist : List Text)
    → (check is_word read rules entries whitelist ≡ [])
      ↔ IsComplete is_word read rules entries whitelist
unfolding check
check-IsComplete is_word read none entries whitelist =
    (λ h. absurd (ground arith), λ h. absurd (ground (arith, h.declared)))
check-IsComplete is_word read (some []) entries whitelist =
    (λ h. absurd (ground arith), λ h. absurd (ground (arith, h.declared, h.some_group)))
check-IsComplete is_word read (some (g ∷ groups)) entries whitelist = (
  λ h.
      let k = append-nil (alert_errors is_word read (iter_alerts (g ∷ groups))) _ h in
      record {
        groups = g ∷ groups;
        declared = refl;
        some_group = refl;
        forward = (alert_errors_iff is_word read (iter_alerts (g ∷ groups))).0 k.0;
        backward = (orphans_iff (iter_alerts (g ∷ groups)) whitelist entries).0 k.1;
      },
  λ h.
      let e : h.groups ≡ g ∷ groups = ground (arith, h.declared) in
      rw ((alert_errors_iff is_word read (iter_alerts (g ∷ groups))).1 (rw e at h.forward))
        ((orphans_iff (iter_alerts (g ∷ groups)) whitelist entries).1 (rw e at h.backward)),
)
