-- ===== src/Validator/Policy/Suggestions.antt =====
-- The suggestions that a refused policy comes back with.
use snts_collectmind.Prelude.{
  true, false, Option, none, some, List, [], ◌∷◌, map, ◌≡◌, refl, Text, arith, inl, inr, Bool-cases,
}
use snts_collectmind.Prelude.Dict.{lookup, insert, has, text_key, lookup-insert, text_eq_iff}
use snts_collectmind.Models.{CollectionPolicySpec, SignalCollectionSpec}
use snts_collectmind.Validator.Sorted.{contains}
use snts_collectmind.Validator.Vss.{VssValidator, CloseMatches, validate_signal, all_names, closest}
use snts_collectmind.Validator.Governance.{DataGovernanceChecker}
use snts_collectmind.Validator.Policy.{Lookup, note_signal, look_up, suggest, validate}

-- What difflib documents: a match is one of the possibilities.
abbrev pub Matches : CloseMatches → Type 0
Matches close = (name s : Text) (ns : List Text) → close name ns ≡ some s → contains s ns ≡ true

module _ {M : Type 0} (close : CloseMatches) (vss : VssValidator M) (matches : Matches close) where
  contains-names :
      (x : Text) (m : List (Text × M))
      → contains x (map (λ (p : Text × M). p.0) m) ≡ true
      → has x m ≡ true
  unfolding has lookup
  contains-names x [] h = absurd (ground arith)
  contains-names x ((k, v) ∷ m) h =
      ground (arith, text_eq_iff x k, text_eq_iff k x, contains-names x m)

  -- Each key is no name of the vocabulary, and each value is one.
  abbrev Sound : List (Text × Text) → Type 0
  Sound m =
      (k s : Text) → lookup k m ≡ some s → (has k vss.signals ≡ false) × (has s vss.signals ≡ true)

  closest_known : (name s : Text) → closest close vss name ≡ some s → has s vss.signals ≡ true
  unfolding closest
  closest_known name s h =
      contains-names s vss.signals (matches name s (all_names close vss) (ground arith))

  insert-Sound :
      (name s : Text) (m : List (Text × Text))
      → has name vss.signals ≡ false
      → has s vss.signals ≡ true
      → Sound m
      → Sound (insert name s m)
  insert-Sound name s m h k sound j v p =
      ground (arith, lookup-insert name j s m, text_eq_iff name j, sound j v)

  suggest-Sound :
      (name : Text) (o : Option Text) (m : List (Text × Text))
      → has name vss.signals ≡ false
      → ((s : Text) → o ≡ some s → has s vss.signals ≡ true)
      → Sound m
      → Sound (suggest name o m)
  suggest-Sound name none m h k sound = sound
  suggest-Sound name (some []) m h k sound = sound
  suggest-Sound name (some (c ∷ s)) m h k sound =
      insert-Sound name (c ∷ s) m h (k (c ∷ s) refl) sound

  module _ (governance : DataGovernanceChecker) where
    note_signal-Sound :
        (x : SignalCollectionSpec) (acc : Lookup)
        → Sound acc.suggestions
        → Sound (note_signal close vss governance x acc).suggestions
    unfolding note_signal validate_signal
    note_signal-Sound x acc sound k s p = elim (Bool-cases (has x.vss_name vss.signals)) [
      | inl e ↦ sound k s (rw e at p)
      | inr e ↦
          suggest-Sound x.vss_name (closest close vss x.vss_name) acc.suggestions e
            (closest_known x.vss_name) sound k s (rw e at p)
    ]

    look_up-Sound :
        (l : List SignalCollectionSpec) (acc : Lookup)
        → Sound acc.suggestions
        → Sound (look_up close vss governance l acc).suggestions
    unfolding look_up
    look_up-Sound [] acc sound = sound
    look_up-Sound (x ∷ l) acc sound =
        look_up-Sound l (note_signal close vss governance x acc) (note_signal-Sound x acc sound)

    -- Every suggestion is for a signal that is not in the vocabulary, and names one that is.
    pub suggestions_sound :
        (policy : CollectionPolicySpec) (k s : Text)
        → lookup k (validate close vss governance policy).suggestions ≡ some s
        → (has k vss.signals ≡ false) × (has s vss.signals ≡ true)
    unfolding validate
    suggestions_sound policy =
        look_up-Sound policy.signals (record { invalid = []; suggestions = [] })
          (unfold lookup in λ k s p. absurd (ground arith))
