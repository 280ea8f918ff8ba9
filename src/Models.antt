-- ===== src/Models.antt =====
-- src/collectmind/models/policy.py: the policy that the generator puts out, once pydantic has
-- accepted it. Identifiers that are walked are texts; the others are strings.
use snts_collectmind.Prelude.{ℕ, Bool, ◌&&◌, not, List, String, Text}

-- `sample_rate_hz` and `confidence_threshold` are floats, kept as pydantic's numbers are written.
pub record SignalCollectionSpec : Type 0 where
  pub vss_name : Text
  pub sample_rate_hz : String
  pub priority : ℕ

pub data TriggerKind : Type 0 where
  threshold time_window geofence scheduled : TriggerKind

-- `params` is kept as its JSON text.
pub record TriggerSpec : Type 0 where
  pub kind : TriggerKind
  pub params : String

pub record DataGovernanceFlags : Type 0 where
  pub pii_consent : Bool
  pub has_pii_signal : Bool

-- The model validator: `false` is the ValueError.
unfoldable pub consent_required_when_pii : DataGovernanceFlags → Bool
consent_required_when_pii flags = not (flags.has_pii_signal && not flags.pii_consent)

pub record OriginatingFinding : Type 0 where
  pub tenant_id : String
  pub finding_id : String

pub record CollectionPolicySpec : Type 0 where
  pub policy_id : String
  pub version : String
  pub signals : List SignalCollectionSpec
  pub trigger_conditions : List TriggerSpec
  pub collection_window_hours : ℕ
  pub hypothesis : String
  pub vehicle_scope : List String
  pub data_governance_flags : DataGovernanceFlags
  pub confidence_threshold : String
  pub generated_from_session_id : String
  pub originating_finding : OriginatingFinding
