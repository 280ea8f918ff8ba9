-- ===== src/Registry/Deployments.antt =====
-- src/collectmind/registry/repository.py: DeploymentRepository, over the table deployment_targets.
use snts_collectmind.Prelude.{
  ℕ, zero, suc, Bool, false, ◌&&◌, Option, none, some, List, [], ◌∷◌, ◌++◌, String, keep_if, any,
  leb, if◌then◌else◌, ◌==◌,
}
use snts_collectmind.Prelude.Json.{Json, arr, Items, nil, cons}
use snts_collectmind.Graph.Session.{DeploymentRecord}
use snts_collectmind.Registry.Policies.{CollectionPolicyRow, Casts, policy_key, text_column, ◌>>=◌}

-- A row of deployment_targets, as far as it is read; times are numbers.
pub record DeploymentRow : Type 0 where
  pub deployment_id : String
  pub tenant_id : String
  pub policy_id : String
  pub version : String
  pub vehicle_scope : List String
  pub status : String
  pub expires_at : Option ℕ

-- _PUBLIC
abbrev pub default_tenant : String
default_tenant = "feature-001-default"

-- expires_at IS NOT NULL AND expires_at <= $1
abbrev pub expired_by : ℕ → Option ℕ → Bool
expired_by now none = false
expired_by now (some t) = leb t now

-- The WHERE of list_due, under the row-level security of acquire(_PUBLIC).
abbrev pub is_due : ℕ → DeploymentRow → Bool
is_due now d =
    (d.tenant_id == default_tenant) && ((d.status == "accepted") && expired_by now d.expires_at)

abbrev expiry : DeploymentRow → ℕ
expiry d = elim d.expires_at [ none ↦ 0 | some t ↦ t ]

-- ORDER BY expires_at ASC
unfoldable pub by_expiry : DeploymentRow → List DeploymentRow → List DeploymentRow
by_expiry d [] = d ∷ []
by_expiry d (e ∷ rest) =
    let later = by_expiry d rest in if leb (expiry d) (expiry e) then d ∷ e ∷ rest else e ∷ later

unfoldable pub sort_by_expiry : List DeploymentRow → List DeploymentRow
sort_by_expiry [] = []
sort_by_expiry (d ∷ rest) = by_expiry d (sort_by_expiry rest)

-- LIMIT n
abbrev pub take : ℕ → List DeploymentRow → List DeploymentRow
take zero l = []
take (suc n) [] = []
take (suc n) (d ∷ l) = d ∷ take n l

unfoldable pub list_due : ℕ → List DeploymentRow → List DeploymentRow
list_due now table = take 100 (sort_by_expiry (keep_if (is_due now) table))

abbrev pub expire : String → DeploymentRow → DeploymentRow
expire deployment_id d =
    if (d.tenant_id == default_tenant) && (d.deployment_id == deployment_id)
    then record d { status = "expired" }
    else d

-- UPDATE ... WHERE deployment_id = $1, under acquire(_PUBLIC)
unfoldable pub mark_expired : String → List DeploymentRow → List DeploymentRow
mark_expired deployment_id [] = []
mark_expired deployment_id (d ∷ table) = expire deployment_id d ∷ mark_expired deployment_id table

-- json.dumps(record["vehicle_scope"]), an array of texts.
unfoldable pub texts_of : Items → Option (List String)
texts_of nil = some []
texts_of (cons v items) = do s ← text_column v; rest ← texts_of items; some (s ∷ rest)

-- CHECK (jsonb_array_length(vehicle_scope) > 0)
abbrev pub some_texts : List String → Option (List String)
some_texts [] = none
some_texts (s ∷ rest) = some (s ∷ rest)

unfoldable pub scope_column : Json → Option (List String)
unfolding texts_of
scope_column (arr items) = texts_of items >>= some_texts
scope_column _ = none

-- _parse_iso: none inside is None, and none outside raises.
abbrev pub parse_iso : Casts → Option String → Option (Option ℕ)
parse_iso casts none = some none
parse_iso casts (some s) = casts.from_iso s >>= λ t. some (some t)

unfoldable pub row_of_deployment : Casts → String → DeploymentRecord → Option DeploymentRow
unfolding scope_column
row_of_deployment casts tenant_id d = do
  policy_id ← text_column d.policy_id
  version ← text_column d.version
  vehicle_scope ← scope_column d.vehicle_scope
  accepted_at ← casts.from_iso d.deployed_at
  expires_at ← parse_iso casts d.expires_at
  some (record {
    deployment_id = d.deployment_id;
    tenant_id = tenant_id;
    policy_id = policy_id;
    version = version;
    vehicle_scope = vehicle_scope;
    status = d.status;
    expires_at = expires_at;
  })

-- PRIMARY KEY (deployment_id), and FOREIGN KEY (tenant_id, policy_id, version).
unfoldable pub add_deployment :
    DeploymentRow → List CollectionPolicyRow → List DeploymentRow → Option (List DeploymentRow)
add_deployment row policies table =
    if any (λ d. d.deployment_id == row.deployment_id) table
    then none
    else if any (policy_key row.tenant_id row.policy_id row.version) policies
    then some (table ++ (row ∷ []))
    else none

-- insert; none is a statement that raises.
unfoldable pub insert :
    Casts
    → String
    → DeploymentRecord
    → List CollectionPolicyRow
    → List DeploymentRow
    → Option (List DeploymentRow)
unfolding row_of_deployment add_deployment
insert casts tenant_id d policies table =
    row_of_deployment casts tenant_id d >>= λ row. add_deployment row policies table
