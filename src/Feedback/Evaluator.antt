-- ===== src/Feedback/Evaluator.antt =====
-- src/collectmind/feedback/evaluator.py: BrakeWearHypothesisRule. Floats are of a type `V`, with
-- the test >= given; the quality score is counted in tenths.
use snts_collectmind.Prelude.{
  ℕ, ◌+◌, min, Bool, ◌&&◌, Option, none, some, List, [], ◌∷◌, leb, ltb, length, if◌then◌else◌,
}

pub data HypothesisState : Type 0 where
  no_data confirmed ruled_out : HypothesisState

-- The evidence is what was counted, or nothing.
pub record HypothesisOutcome : Type 0 where
  pub hypothesis_state : HypothesisState
  pub signals_collected_count : ℕ
  pub quality_tenths : ℕ
  pub evidence_summary : Option (ℕ × ℕ)

module _ {V : Type 0} (at_least : V → V → Bool) where
  -- The loop: how many are at or above the threshold, and how many below.
  unfoldable pub tally : V → List V → ℕ × ℕ
  tally threshold [] = (0, 0)
  tally threshold (v ∷ values) =
      let rest = tally threshold values in
      if at_least v threshold then (rest.0 + 1, rest.1) else (rest.0, rest.1 + 1)

  abbrev pub verdict : ℕ → ℕ × ℕ → HypothesisOutcome
  verdict count seen = record {
    hypothesis_state = if leb seen.1 seen.0 && ltb 0 seen.0 then confirmed else ruled_out;
    signals_collected_count = count;
    quality_tenths = min 10 count;
    evidence_summary = some seen;
  }

  -- The values are those of the observations, 0.0 where there is none.
  unfoldable pub evaluate : List V → V → HypothesisOutcome
  evaluate [] threshold = record {
    hypothesis_state = no_data;
    signals_collected_count = 0;
    quality_tenths = 0;
    evidence_summary = none;
  }
  evaluate (v ∷ values) threshold = verdict (length (v ∷ values)) (tally threshold (v ∷ values))
