-- ===== src/Learning/Complete.antt =====
-- What a resolved choice teaches: valid evidence of every feature in which the chosen option differs
-- from the others by more than a negligible amount.
use soulmate.Prelude.{ℕ, String, ◌≡◌, false, List, Member}
use soulmate.Exec.{Result, ok}
use soulmate.Float.{Float, lt_float}
use soulmate.Float.Arith.{abs_float}
use soulmate.Json.{real}
use soulmate.Domain.Decisions.{DecisionEvent, DecisionOption, DecisionResolution}
use soulmate.Domain.Evidence.{Evidence}
use soulmate.Learning.Choice.{
  LearningError, alternative_mean, negligible, relative_value, choice_evidence, learn_features,
}

-- The alternatives have a mean of the feature, and where the chosen option differs from it, there is
-- evidence of the feature with the difference, cut to the unit interval around zero.
pub record Teaches (chosen : DecisionOption) (alternatives : List DecisionOption)
    (items : List Evidence) (key : String) : Type 0 where
  pub mean : Float
  pub divided : alternative_mean key alternatives ≡ ok mean
  pub taught :
      lt_float (abs_float (relative_value key chosen mean)) negligible ≡ false
      → (e : Evidence) × Member e items
        × (e.target_key ≡ key)
        × (e.value ≡ real (relative_value key chosen mean))

module _ (resolution : DecisionResolution) (decision : DecisionEvent) (profile_id : String)
    (created_at : ℕ) (options : List DecisionOption) where
  abbrev evidence : String → ℕ → Float → Evidence
  evidence = choice_evidence resolution decision profile_id created_at options

  module _ (chosen : DecisionOption) (alternatives : List DecisionOption) where
    abbrev learned : List String → ℕ → Result LearningError (List Evidence)
    learned = learn_features resolution decision profile_id created_at options chosen alternatives
