-- ===== src/Validator/Policy.antt =====
-- src/collectmind/validator/policy_validator.py: PolicyValidator.validate.
pub mod Accepts
pub mod Suggestions
use snts_collectmind.Prelude.{
  ℕ, ◌≤◌, Bool, true, false, ◌&&◌, ◌||◌, not, Option, none, some, List, [], ◌∷◌, ◌++◌, map, ◌≡◌,
  refl, Text, String, is_empty, leb, any, all, if◌then◌else◌, arith, ◌⊎◌, inl, inr, ◌↔◌, Bool-cases,
}
use snts_collectmind.Prelude.Dict.{lookup, insert, has, text_key}
use snts_collectmind.Models.{CollectionPolicySpec, SignalCollectionSpec}
use snts_collectmind.Validator.Vss
use snts_collectmind.Validator.Vss.{VssValidator, CloseMatches, validate_signal}
use snts_collectmind.Validator.Governance.{
  DataGovernanceChecker, GovernanceDecision, evaluate_signals, is_pii, evaluate_signals_lem,
  is_empty-flagged,
}

pub data Code : Type 0 where
  vss_invalid_signal pii_consent_required pii_flag_inconsistent window_out_of_bounds : Code
  schema_validation_failed : Code

-- The `details` of an error.
pub data Details : Type 0 where
  invalid_signals flagged_signals : List Text → Details
  value : ℕ → Details
  no_details : Details

pub record ValidationError : Type 0 where
  pub code : Code
  pub field : String
  pub message : String
  pub details : Details

pub record ValidationResult : Type 0 where
  pub valid : Bool
  pub errors : List ValidationError
  pub suggestions : List (Text × Text)

-- The invalid names, in order, and the suggestion for each that has one.
pub record Lookup : Type 0 where
  pub invalid : List Text
  pub suggestions : List (Text × Text)

abbrev suggest : Text → Option Text → List (Text × Text) → List (Text × Text)
suggest name none found = found
suggest name (some s) found = if is_empty s then found else insert name s found

module _ {M : Type 0} (close : CloseMatches) (vss : VssValidator M)
    (governance : DataGovernanceChecker) where
  -- One round of the loop over the signals.
  unfoldable pub note_signal : SignalCollectionSpec → Lookup → Lookup
  note_signal sig acc =
      let result = validate_signal close vss sig.vss_name in
      if result.valid then acc else record {
        invalid = acc.invalid ++ sig.vss_name ∷ [];
        suggestions = suggest sig.vss_name result.suggestion acc.suggestions;
      }

  unfoldable pub look_up : List SignalCollectionSpec → Lookup → Lookup
  look_up [] acc = acc
  look_up (sig ∷ rest) acc = look_up rest (note_signal sig acc)

  unfoldable pub signal_errors : List Text → List ValidationError
  signal_errors [] = []
  signal_errors (n ∷ ns) =
      record {
        code = vss_invalid_signal;
        field = "signals";
        message = "One or more signals are not valid VSS v6.0 names.";
        details = invalid_signals (n ∷ ns);
      }
      ∷ []

  abbrev names : CollectionPolicySpec → List Text
  names policy = map (λ (s : SignalCollectionSpec). s.vss_name) policy.signals

  unfoldable pub governance_errors : CollectionPolicySpec → List ValidationError
  governance_errors policy =
      let decision =
        evaluate_signals governance (names policy) policy.data_governance_flags.pii_consent in
      if not decision.accepted
      then record {
        code = pii_consent_required;
        field = "data_governance_flags";
        message = "PII-adjacent signal selected without explicit consent.";
        details = flagged_signals decision.flagged_signals;
      }
        ∷ []
      else if not (is_empty decision.flagged_signals)
          && not policy.data_governance_flags.has_pii_signal
      then record {
        code = pii_flag_inconsistent;
        field = "data_governance_flags.has_pii_signal";
        message = "has_pii_signal must be true when a PII-adjacent signal is selected.";
        details = flagged_signals decision.flagged_signals;
      }
        ∷ []
      else []

  unfoldable pub window_errors : CollectionPolicySpec → List ValidationError
  window_errors policy =
      if not (leb 1 policy.collection_window_hours && leb policy.collection_window_hours 168)
      then record {
        code = window_out_of_bounds;
        field = "collection_window_hours";
        message = "collection_window_hours must be between 1 and 168 inclusive.";
        details = value policy.collection_window_hours;
      }
        ∷ []
      else []

  unfoldable pub validate : CollectionPolicySpec → ValidationResult
  unfolding signal_errors governance_errors window_errors
  validate policy =
      let found = look_up policy.signals (record { invalid = []; suggestions = [] }) in
      let errors =
        signal_errors found.invalid ++ (governance_errors policy ++ window_errors policy) in
      record { valid = is_empty errors; errors = errors; suggestions = found.suggestions }
