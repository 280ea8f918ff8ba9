-- ===== src/Validator/Governance.antt =====
-- src/collectmind/validator/governance.py: signals that are personal data, and the consent for
-- them.
use snts_collectmind.Prelude.{
  Bool, true, false, ◌&&◌, ◌||◌, not, Option, none, some, List, [], ◌∷◌, ◌++◌, ◌≡◌, refl, Text,
  codes, String, starts_with, is_empty, keep_if, any, if◌then◌else◌, arith, Bool-cases, inl, inr,
  ◌∙◌, text_eq, text_eq-eq, text_eq_refl, ◌↔◌,
}
use snts_collectmind.Validator.Sorted.{
  add_sorted, sorted, sorted_set, contains, contains-sorted_set, any-sorted, Ascending,
  sorted_set-Ascending,
}

pub record DataGovernanceChecker : Type 0 where
  pub branches : List Text
  pub prefix_match : Bool

-- __init__
unfoldable pub init : List Text → Bool → DataGovernanceChecker
init branches prefix_match = record { branches = sorted branches; prefix_match = prefix_match }

unfoldable pub branches_of : List (String × List Text) → List Text
branches_of [] = []
branches_of ((category, branches) ∷ rest) = branches ++ branches_of rest

-- from_path, over the branches of each category of the parsed file
unfoldable pub from_categories : List (String × List Text) → Option Bool → DataGovernanceChecker
unfolding branches_of init
from_categories categories prefix_match =
    init (branches_of categories) (elim prefix_match [ none ↦ true | some b ↦ b ])

pub data Code : Type 0 where
  pii_consent_required : Code

pub record GovernanceDecision : Type 0 where
  pub accepted : Bool
  pub code : Option Code
  pub flagged_signals : List Text

module _ (g : DataGovernanceChecker) where
  unfoldable pub is_pii : Text → Bool
  is_pii signal_name =
      if contains signal_name g.branches
      then true
      else if g.prefix_match
      then any (λ branch. starts_with (branch ++ codes ".") signal_name) g.branches
      else false

  -- The signals that are flagged.
  unfoldable pub flagged : List Text → List Text
  flagged signals = sorted_set (keep_if is_pii signals)

  unfoldable pub evaluate_signals : List Text → Bool → GovernanceDecision
  evaluate_signals signals consent =
      if not (is_empty (flagged signals)) && not consent
      then record {
        accepted = false;
        code = some pii_consent_required;
        flagged_signals = flagged signals;
      }
      else record { accepted = true; code = none; flagged_signals = flagged signals }

-- A signal is personal data under a checker exactly when it is a branch, or, with prefix matching,
-- lies under one, whatever the order in which the branches were given.
pub is_pii-init :
    (branches : List Text) (prefix_match : Bool) (signal : Text)
    → is_pii (init branches prefix_match) signal ≡ (
        contains signal branches
        || (prefix_match && any (λ b. starts_with (b ++ codes ".") signal) branches))
unfolding is_pii init
is_pii-init branches prefix_match signal =
    rw (any-sorted (λ b. text_eq signal b) branches)
      (rw (any-sorted (λ b. starts_with (b ++ codes ".") signal) branches) (ground arith))

is_empty-add_sorted : (a : Text) (l : List Text) → is_empty (add_sorted a l) ≡ false
unfolding add_sorted
is_empty-add_sorted a [] = refl
is_empty-add_sorted a (b ∷ bs) = ground arith

module _ (g : DataGovernanceChecker) where
  -- Nothing is flagged exactly when no signal is personal data.
  pub is_empty-flagged : (l : List Text) → is_empty (flagged g l) ≡ not (any (is_pii g) l)
  unfolding flagged sorted_set
  is_empty-flagged [] = refl
  is_empty-flagged (a ∷ l) =
      ground (arith, is_empty-flagged l, is_empty-add_sorted a (sorted_set (keep_if (is_pii g) l)))

  contains-keep_if :
      (x : Text) (l : List Text) → contains x (keep_if (is_pii g) l) ≡ (is_pii g x && contains x l)
  contains-keep_if x [] = ground arith
  contains-keep_if x (a ∷ l) = elim (Bool-cases (text_eq x a)) [
    | inl e ↦
        let p : x ≡ a = text_eq-eq x a e in
        rw p (ground (arith, contains-keep_if x l, text_eq_refl a))
    | inr e ↦ ground (arith, contains-keep_if x l)
  ]

  pub flagged_signals-evaluate :
      (signals : List Text) (consent : Bool)
      → (evaluate_signals g signals consent).flagged_signals ≡ flagged g signals
  unfolding evaluate_signals
  flagged_signals-evaluate signals consent = ground arith

  contains-flagged :
      (x : Text) (l : List Text) → contains x (flagged g l) ≡ (is_pii g x && contains x l)
  unfolding flagged
  contains-flagged x l = contains-sorted_set x (keep_if (is_pii g) l) ∙ contains-keep_if x l

  flagged-Ascending : (l : List Text) → Ascending (flagged g l)
  unfolding flagged
  flagged-Ascending l = sorted_set-Ascending (keep_if (is_pii g) l)

  -- The flagged signals are in order with no repetition, and are those signals of the policy that
  -- are personal data; the decision is a refusal exactly when there is one and no consent, and it
  -- then carries the consent code.
  pub evaluate_signals_lem :
      (signals : List Text) (consent : Bool)
      → Ascending (evaluate_signals g signals consent).flagged_signals
        × ((x : Text)
            → contains x (evaluate_signals g signals consent).flagged_signals
              ≡ (is_pii g x && contains x signals))
        × ((evaluate_signals g signals consent).accepted
            ≡ (consent || not (any (is_pii g) signals)))
        × (((evaluate_signals g signals consent).code ≡ some pii_consent_required)
            ↔ ((evaluate_signals g signals consent).accepted ≡ false))
  unfolding evaluate_signals
  evaluate_signals_lem signals consent = (
    rw flagged_signals-evaluate (flagged-Ascending signals),
    (λ x. rw flagged_signals-evaluate (contains-flagged x signals)),
    ground (arith, is_empty-flagged signals),
    ground arith,
  )
