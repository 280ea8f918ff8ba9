-- ===== src/Registry/Outcomes.antt =====
-- src/collectmind/registry/repository.py: OutcomeRepository, over the table policy_outcomes, and
-- the join of PolicyRepository.find_active_for_vehicle.
use snts_collectmind.Prelude.{
  ℕ, Bool, true, false, ◌&&◌, Option, none, some, List, [], ◌∷◌, String, keep_if, any,
  if◌then◌else◌, ◌==◌,
}
use snts_collectmind.Prelude.Json.{Json, str, arr, Items, nil, cons}
use snts_collectmind.Prelude.Rows.{latest_first}
use snts_collectmind.Registry.Policies.{
  CollectionPolicyRow, PolicyShown, owned, created, shown_first, has_finding, row_to_policy,
}
use snts_collectmind.Registry.Deployments.{DeploymentRow}

-- A row of policy_outcomes. Times are numbers, and the score is kept as it is written.
pub record StoredOutcome : Type 0 where
  pub outcome_id : String
  pub tenant_id : String
  pub originating_finding : Json
  pub policy_id : String
  pub version : String
  pub hypothesis_state : String
  pub evaluated_at : ℕ
  pub evidence_summary : Json
  pub signals_collected_count : ℕ
  pub data_quality_score : String

-- _row_to_outcome, with the three of policy_ref.
pub record OutcomeShown : Type 0 where
  pub outcome_id : String
  pub originating_finding : Json
  pub policy_ref_tenant_id : String
  pub policy_ref_policy_id : String
  pub policy_ref_version : String
  pub hypothesis_state : String
  pub evaluated_at : ℕ
  pub signals_collected_count : ℕ
  pub data_quality_score : String
  pub evidence_summary : Json

unfoldable pub row_to_outcome : StoredOutcome → OutcomeShown
row_to_outcome r = record {
  outcome_id = r.outcome_id;
  originating_finding = r.originating_finding;
  policy_ref_tenant_id = r.tenant_id;
  policy_ref_policy_id = r.policy_id;
  policy_ref_version = r.version;
  hypothesis_state = r.hypothesis_state;
  evaluated_at = r.evaluated_at;
  signals_collected_count = r.signals_collected_count;
  data_quality_score = r.data_quality_score;
  evidence_summary = r.evidence_summary;
}

abbrev pub evaluated : StoredOutcome → ℕ
evaluated r = r.evaluated_at

abbrev pub outcome_owned : String → StoredOutcome → Bool
outcome_owned tenant_id r = r.tenant_id == tenant_id

abbrev pub outcome_first : List StoredOutcome → Option OutcomeShown
outcome_first [] = none
outcome_first (r ∷ rows) = some (row_to_outcome r)

unfoldable pub get_by_finding : String → String → List StoredOutcome → Option OutcomeShown
unfolding row_to_outcome has_finding
get_by_finding tenant_id finding_id table = outcome_first (
    latest_first evaluated (
      keep_if
        (λ r.
          outcome_owned tenant_id r
          && ((r.tenant_id == tenant_id) && has_finding finding_id r.originating_finding))
        table))

-- vehicle_scope @> jsonb_build_array($2)
abbrev pub is_str : String → Json → Bool
is_str s (str t) = t == s
is_str s _ = false

unfoldable pub holds_text : String → Items → Bool
holds_text s nil = false
holds_text s (cons v items) = let rest = holds_text s items in if is_str s v then true else rest

unfoldable pub in_scope : String → Json → Bool
unfolding holds_text
in_scope vehicle_id (arr items) = holds_text vehicle_id items
in_scope vehicle_id _ = false

abbrev pub deployment_owned : String → DeploymentRow → Bool
deployment_owned tenant_id d = d.tenant_id == tenant_id

-- ON dt.tenant_id = cp.tenant_id AND ..., with dt.status = 'accepted'
abbrev pub deploys : CollectionPolicyRow → DeploymentRow → Bool
deploys cp dt =
    (dt.tenant_id == cp.tenant_id)
    && ((dt.policy_id == cp.policy_id) && ((dt.version == cp.version) && (dt.status == "accepted")))

abbrev pub is_active : String → String → List DeploymentRow → CollectionPolicyRow → Bool
is_active tenant_id vehicle_id deployments cp =
    (cp.tenant_id == tenant_id)
    && (in_scope vehicle_id cp.vehicle_scope
        && any (λ dt. deployment_owned tenant_id dt && deploys cp dt) deployments)

-- A row of the join counts once for each deployment, which the first row does not show.
unfoldable pub find_active_for_vehicle :
    String → String → List CollectionPolicyRow → List DeploymentRow → Option PolicyShown
unfolding row_to_policy in_scope
find_active_for_vehicle tenant_id vehicle_id policies deployments = shown_first (
    latest_first created (
      keep_if (λ cp. owned tenant_id cp && is_active tenant_id vehicle_id deployments cp) policies))
