-- ===== src/Runbooks.antt =====
-- scripts/check_runbook_completeness.py: the check that alerts and runbook pages match, from the
-- parsed rules.yaml and whitelist on. A path is a text from the root of the repository.
pub mod Complete
mod Examples
use snts_collectmind.Prelude.{
  ℕ, ◌-◌, Bool, true, false, not, ◌&&◌, ◌||◌, Option, none, some, List, [], ◌∷◌, ◌++◌, String, Text,
  codes, starts_with, text_eq, drop, is_space, is_empty, split, keep_if, any, length, ltb, nat_eq,
  if◌then◌else◌,
}

pub record Rule : Type 0 where
  pub alert : Option String
  pub runbook_url : Option Text
  pub summary : Option Text

pub record Group : Type 0 where
  pub name : String
  pub rules : List Rule

-- What _iter_alerts yields.
pub record Alert : Type 0 where
  pub group_name : String
  pub alert_name : String
  pub rule : Rule

-- An entry of the runbook directory.
pub record Entry : Type 0 where
  pub name : Text
  pub is_file : Bool

pub data Error : Type 0 where
  rules_not_found no_alert_groups : Error
  missing_runbook_url missing_summary missing_page : Alert → Error
  missing_sections : Text → List Text → Error
  orphan_runbook : Text → Error

abbrev pub required_sections : List Text
required_sections =
    codes "Symptoms" ∷ codes "Dashboard" ∷ codes "Mitigation" ∷ codes "Escalation" ∷ []

abbrev pub runbook_dir : Text
runbook_dir = codes "observability/runbooks/"

-- s.partition(sep)[2]: what follows the first separator, and nothing without one.
unfoldable pub after_first : Text → Text → Text
after_first sep [] = []
after_first sep (c ∷ s) =
    let rest = after_first sep s in
    if starts_with sep (c ∷ s) then drop (length sep) (c ∷ s) else rest

-- sep in s
unfoldable pub contains : Text → Text → Bool
contains sep [] = starts_with sep []
contains sep (c ∷ s) = let rest = contains sep s in starts_with sep (c ∷ s) || rest

-- s.split(c, 1)[0]
unfoldable pub before : ℕ → Text → Text
before c [] = []
before c (d ∷ s) = let rest = before c s in if nat_eq d c then [] else d ∷ rest

-- s.rsplit("/", 1)[-1]
unfoldable pub last_segment : Text → Text
unfolding contains after_first
last_segment [] = []
last_segment (c ∷ s) =
    let rest = last_segment s in if contains (codes "/") (c ∷ s) then rest else c ∷ s

abbrev pub without_host : Text → Text
without_host url =
    if contains (codes "://") url
    then before b'#' (before b'?' (after_first (codes "/") (after_first (codes "://") url)))
    else url

abbrev pub base_name : Text → Text
base_name name =
    if contains (codes "/") name && not (starts_with runbook_dir name)
    then last_segment name
    else name

abbrev pub in_dir : Text → Text
in_dir name = if starts_with runbook_dir name then name else runbook_dir ++ name

-- _resolve_runbook_target
unfoldable pub resolve_runbook_target : Text → Text
unfolding contains after_first before last_segment starts_with
resolve_runbook_target runbook_url = in_dir (base_name (without_host runbook_url))

abbrev pub last_of : Text → List Text → Text
last_of name [] = name
last_of name (w ∷ ws) = last_of w ws

-- target.name: the last component of the path.
unfoldable pub name_of : Text → Text
unfolding split
name_of path =
    last_of [] (keep_if (λ w. not (is_empty w) && not (text_eq w (codes "."))) (split b'/' path))

abbrev pub alerts_in : String → List Rule → List Alert
alerts_in group_name [] = []
alerts_in group_name (r ∷ rules) =
    let rest = alerts_in group_name rules in
    elim r.alert [
      | none ↦ rest
      | some a ↦ record { group_name = group_name; alert_name = a; rule = r } ∷ rest
    ]

-- _iter_alerts
unfoldable pub iter_alerts : List Group → List Alert
iter_alerts [] = []
iter_alerts (g ∷ groups) = alerts_in g.name g.rules ++ iter_alerts groups

module _ (is_word : ℕ → Bool) where
  -- The section's name, and then \b.
  abbrev pub names_section : Text → Text → Bool
  names_section section s =
      starts_with section s
      && elim (drop (length section) s) [ [] ↦ true | c ∷ rest ↦ not (is_word c) ]

  unfoldable pub after_spaces : Text → Text → Bool
  unfolding starts_with
  after_spaces section [] = names_section section []
  after_spaces section (c ∷ s) =
      let rest = after_spaces section s in
      if is_space c then rest else names_section section (c ∷ s)

  -- #*\s* and the name; a name begins with no space and no hash.
  unfoldable pub after_hashes : Text → Text → Bool
  unfolding after_spaces
  after_hashes section [] = after_spaces section []
  after_hashes section (c ∷ s) =
      let rest = after_hashes section s in
      if nat_eq c b'#' then rest else after_spaces section (c ∷ s)

  -- re.search(r"(?m)^#+\s*section\b", body), at the start of a line or inside of one.
  unfoldable pub has_section_from : Bool → Text → Text → Bool
  unfolding after_hashes
  has_section_from at_start section [] = false
  has_section_from at_start section (c ∷ s) =
      let rest = has_section_from (nat_eq c 10) section s in
      (at_start && (nat_eq c b'#' && after_hashes section s)) || rest

  abbrev pub sections_missing : Text → List Text
  sections_missing body = keep_if (λ s. not (has_section_from true s body)) required_sections

  -- The page of an alert, with its text if it is a file.
  abbrev pub page_errors : Alert → Text → Option Text → List Error
  page_errors a target none = missing_page a ∷ []
  page_errors a target (some body) = elim (sections_missing body) [
    | [] ↦ []
    | s ∷ missing ↦ missing_sections (name_of target) (s ∷ missing) ∷ []
  ]

  -- A value that is None or empty.
  abbrev pub unset : Option Text → Bool
  unset none = true
  unset (some s) = is_empty s

  abbrev pub url_errors : (Text → Option Text) → Alert → Option Text → List Error
  url_errors read a none = missing_runbook_url a ∷ []
  url_errors read a (some []) = missing_runbook_url a ∷ []
  url_errors read a (some (c ∷ s)) =
      let target = resolve_runbook_target (c ∷ s) in
      (if unset a.rule.summary then missing_summary a ∷ [] else [])
      ++ page_errors a target (read target)

  -- The forward direction: `read` gives the text of a path that is a file.
  unfoldable pub alert_errors : (Text → Option Text) → List Alert → List Error
  unfolding resolve_runbook_target has_section_from name_of
  alert_errors read [] = []
  alert_errors read (a ∷ alerts) = url_errors read a a.rule.runbook_url ++ alert_errors read alerts

-- entry.suffix == ".md"
abbrev pub is_page : Text → Bool
is_page name = ltb 3 (length name) && text_eq (drop (length name - 3) name) (codes ".md")

abbrev pub refers_to : Text → Alert → Bool
refers_to name a = elim a.rule.runbook_url [
  | none ↦ false
  | some [] ↦ false
  | some (c ∷ s) ↦ text_eq (name_of (resolve_runbook_target (c ∷ s))) name
]

-- The `continue`s of the loop, and then an orphan.
abbrev pub is_orphan : List Alert → List Text → Entry → Bool
is_orphan alerts whitelist entry =
    entry.is_file
    && (is_page entry.name
        && (not (any (text_eq entry.name) whitelist) && not (any (refers_to entry.name) alerts)))

-- find_orphan_runbooks, on the sorted entries of a directory that is there.
unfoldable pub find_orphan_runbooks : List Alert → List Entry → List Text → List Text
unfolding resolve_runbook_target name_of text_eq
find_orphan_runbooks alerts [] whitelist = []
find_orphan_runbooks alerts (entry ∷ entries) whitelist =
    let rest = find_orphan_runbooks alerts entries whitelist in
    if is_orphan alerts whitelist entry then entry.name ∷ rest else rest

abbrev pub orphan_errors : List Text → List Error
orphan_errors [] = []
orphan_errors (name ∷ names) = orphan_runbook name ∷ orphan_errors names

-- check; none is a rules.yaml that is not there.
unfoldable pub check :
    (ℕ → Bool) → (Text → Option Text) → Option (List Group) → List Entry → List Text → List Error
unfolding alert_errors find_orphan_runbooks iter_alerts
check is_word read none entries whitelist = rules_not_found ∷ []
check is_word read (some []) entries whitelist = no_alert_groups ∷ []
check is_word read (some (g ∷ groups)) entries whitelist =
    let alerts = iter_alerts (g ∷ groups) in
    alert_errors is_word read alerts
    ++ orphan_errors (find_orphan_runbooks alerts entries whitelist)
