-- ===== src/Validator/Vss.antt =====
-- src/collectmind/validator/vss.py: signal names against the pinned vocabulary.
use snts_collectmind.Prelude.{
  Bool, true, false, Option, none, some, List, map, Text, is_empty, if◌then◌else◌,
}
use snts_collectmind.Prelude.Dict.{lookup, has, text_key}

pub data Code : Type 0 where
  vss_invalid_signal : Code

pub record SignalValidationResult : Type 0 where
  pub valid : Bool
  pub name : Text
  pub code : Option Code
  pub suggestion : Option Text

-- The vocabulary: each name with its metadata.
pub record VssValidator (M : Type 0) : Type 0 where
  pub signals : List (Text × M)

-- difflib.get_close_matches(name, names, n=1, cutoff=0.85): the best match, if there is one.
abbrev pub CloseMatches : Type 0
CloseMatches = Text → List Text → Option Text

module _ {M : Type 0} (close : CloseMatches) (v : VssValidator M) where
  unfoldable pub is_valid : Text → Bool
  is_valid name = has name v.signals

  unfoldable pub metadata : Text → Option M
  metadata name = lookup name v.signals

  abbrev pub all_names : List Text
  all_names = map (λ (p : Text × M). p.0) v.signals

  unfoldable pub closest : Text → Option Text
  closest name = if is_empty name then none else close name all_names

  unfoldable pub validate_signal : Text → SignalValidationResult
  unfolding is_valid closest
  validate_signal name =
      if has name v.signals
      then record { valid = true; name = name; code = none; suggestion = none }
      else record {
        valid = false;
        name = name;
        code = some vss_invalid_signal;
        suggestion = closest name;
      }
