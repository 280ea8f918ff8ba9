-- ===== src/Validator/Examples.antt =====
-- The validator at concrete inputs: a vocabulary of two signals, one of them personal.
use snts_collectmind.Prelude.{
  ◌≤◌, true, false, none, some, [], ◌∷◌, map, String, Text, codes, text_eq, text_eq_refl,
  starts_with, any, all, if◌then◌else◌, ◌≡◌, refl, arith, ◌⊎◌, ◌↔◌,
}
use snts_collectmind.Prelude.Dict.{lookup, insert, has, text_key}
use snts_collectmind.Models.{CollectionPolicySpec, SignalCollectionSpec}
use snts_collectmind.Validator.Vss.{VssValidator, CloseMatches, validate_signal, is_valid, closest}
use snts_collectmind.Validator.Governance.{DataGovernanceChecker, is_pii}
use snts_collectmind.Validator.Policy.{validate, look_up, note_signal}
use snts_collectmind.Validator.Policy.Accepts.{valid_iff}
use snts_collectmind.Validator.Policy.Suggestions.{Matches}

abbrev speed : Text
speed = codes "Vehicle.Speed"

abbrev latitude : Text
latitude = codes "Vehicle.Location.Latitude"

abbrev vocabulary : VssValidator String
vocabulary = record { signals = (speed, "km/h") ∷ (latitude, "deg") ∷ [] }

abbrev checker : DataGovernanceChecker
checker = record { branches = codes "Vehicle.Location" ∷ []; prefix_match = true }

-- The first of the names that begins as the signal does.
abbrev close : CloseMatches
close name [] = none
close name (n ∷ ns) = if starts_with n name then some n else close name ns

close-Matches : Matches close
close-Matches name s [] h = absurd (ground arith)
close-Matches name s (n ∷ ns) h = ground (arith, close-Matches name s ns, text_eq_refl s)

abbrev a_policy : CollectionPolicySpec
a_policy = record {
  policy_id = "p1";
  version = "1.0.0";
  signals = record { vss_name = codes "Vehicle.Speeds"; sample_rate_hz = "1.0"; priority = 1 } ∷ [];
  trigger_conditions = [];
  collection_window_hours = 24;
  hypothesis = "pads wear early";
  vehicle_scope = "v1" ∷ [];
  data_governance_flags = record { pii_consent = false; has_pii_signal = false };
  confidence_threshold = "0.5";
  generated_from_session_id = "s1";
  originating_finding = record { tenant_id = "acme"; finding_id = "f1" };
}

valid_iff_example : ((validate close vocabulary checker a_policy).valid ≡ true) ↔ (
    (all (λ (s : SignalCollectionSpec). has s.vss_name vocabulary.signals) a_policy.signals ≡ true)
    × ((any (is_pii checker) (map (λ (s : SignalCollectionSpec). s.vss_name) a_policy.signals)
          ≡ false)
        ⊎ ((a_policy.data_governance_flags.pii_consent ≡ true)
            × (a_policy.data_governance_flags.has_pii_signal ≡ true)))
    × (1 ≤ a_policy.collection_window_hours)
    × (a_policy.collection_window_hours ≤ 168))
valid_iff_example = valid_iff close vocabulary checker a_policy

suggested :
    lookup (codes "Vehicle.Speeds") (validate close vocabulary checker a_policy).suggestions
    ≡ some speed
unfolding validate look_up note_signal validate_signal closest is_valid has lookup insert
    starts_with text_eq
suggested = refl
