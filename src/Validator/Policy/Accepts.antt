-- ===== src/Validator/Policy/Accepts.antt =====
-- When a policy is valid.
use snts_collectmind.Prelude.{
  ◌≤◌, true, false, ◌&&◌, ◌||◌, not, List, [], ◌∷◌, ◌++◌, map, ◌≡◌, refl, Text, is_empty, any, all,
  arith, ◌⊎◌, ◌↔◌, is_empty-append,
}
use snts_collectmind.Prelude.Dict.{has, text_key}
use snts_collectmind.Models.{CollectionPolicySpec, SignalCollectionSpec}
use snts_collectmind.Validator.Vss.{VssValidator, CloseMatches, validate_signal}
use snts_collectmind.Validator.Governance.{
  DataGovernanceChecker, is_pii, evaluate_signals_lem, flagged_signals-evaluate, is_empty-flagged,
}
use snts_collectmind.Validator.Policy.{
  Lookup, look_up, signal_errors, note_signal, names, governance_errors, window_errors, validate,
}

module _ {M : Type 0} (close : CloseMatches) (vss : VssValidator M)
    (governance : DataGovernanceChecker) where
  invalid-note_signal :
      (s : SignalCollectionSpec) (acc : Lookup)
      → is_empty (note_signal close vss governance s acc).invalid
        ≡ (is_empty acc.invalid && has s.vss_name vss.signals)
  unfolding note_signal validate_signal
  invalid-note_signal s acc = ground (arith, is_empty-append acc.invalid (s.vss_name ∷ []))

  invalid-look_up :
      (l : List SignalCollectionSpec) (acc : Lookup)
      → is_empty (look_up close vss governance l acc).invalid
        ≡ (is_empty acc.invalid && all (λ s. has s.vss_name vss.signals) l)
  unfolding look_up
  invalid-look_up [] acc = ground arith
  invalid-look_up (s ∷ l) acc =
      ground (
        arith,
        invalid-look_up l (note_signal close vss governance s acc),
        invalid-note_signal s acc,
      )

  governance_accepts :
      (policy : CollectionPolicySpec)
      → is_empty (governance_errors close vss governance policy) ≡ (
          not (any (is_pii governance) (names close vss governance policy))
          || (policy.data_governance_flags.pii_consent
              && policy.data_governance_flags.has_pii_signal))
  unfolding governance_errors
  governance_accepts policy =
      let ns = names close vss governance policy in
      let (order, members, accepted, code) =
        evaluate_signals_lem governance ns policy.data_governance_flags.pii_consent in
      ground (
        arith,
        accepted,
        flagged_signals-evaluate governance ns policy.data_governance_flags.pii_consent,
        is_empty-flagged governance ns,
      )

  signals_accept : (ns : List Text) → is_empty (signal_errors close vss governance ns) ≡ is_empty ns
  unfolding signal_errors
  signals_accept [] = refl
  signals_accept (n ∷ ns) = refl

  -- A policy is valid exactly when every signal is in the vocabulary; no signal is personal
  -- data, or consent is given and the policy says that it has such a signal; and the window is
  -- within 1 and 168 hours.
  pub valid_iff :
      (policy : CollectionPolicySpec)
      → ((validate close vss governance policy).valid ≡ true) ↔ (
          (all (λ s. has s.vss_name vss.signals) policy.signals ≡ true)
          × ((any (is_pii governance) (map (λ s. s.vss_name) policy.signals) ≡ false)
              ⊎ ((policy.data_governance_flags.pii_consent ≡ true)
                  × (policy.data_governance_flags.has_pii_signal ≡ true)))
          × (1 ≤ policy.collection_window_hours)
          × (policy.collection_window_hours ≤ 168))
  unfolding validate window_errors
  valid_iff policy =
      let found =
        look_up close vss governance policy.signals (record { invalid = []; suggestions = [] }) in
      ground (
        arith,
        is_empty-append (signal_errors close vss governance found.invalid) (
            governance_errors close vss governance policy
            ++ window_errors close vss governance policy),
        is_empty-append (governance_errors close vss governance policy)
            (window_errors close vss governance policy),
        signals_accept found.invalid,
        invalid-look_up policy.signals (record { invalid = []; suggestions = [] }),
        governance_accepts policy,
      )
