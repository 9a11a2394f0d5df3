-- ===== src/Matching/Proficiency.antt =====
-- matching/proficiency.ts: the competence ladder.
use salesforce_expert_suppor.Prelude.{ℕ, Bool, true, false, leb, if◌then◌else◌}
use salesforce_expert_suppor.Contracts.{ProficiencyLevel}
use salesforce_expert_suppor.Matching.Number.{Number, smaller, whole}

unfoldable pub proficiency_rank : ProficiencyLevel → ℕ
proficiency_rank ProficiencyLevel.beginner = 0
proficiency_rank ProficiencyLevel.intermediate = 1
proficiency_rank ProficiencyLevel.advanced = 2
proficiency_rank ProficiencyLevel.expert = 3

unfoldable pub meets_floor : ProficiencyLevel → ProficiencyLevel → Bool
meets_floor level floor = leb (proficiency_rank floor) (proficiency_rank level)

unfoldable pub strictest_floor : ProficiencyLevel → ProficiencyLevel → ProficiencyLevel
strictest_floor a b = if leb (proficiency_rank b) (proficiency_rank a) then a else b

module _ (N : Number) where
  open N use {Value, literal, times}

  abbrev pub base_value : ProficiencyLevel → Value
  base_value ProficiencyLevel.beginner = literal 25 100
  base_value ProficiencyLevel.intermediate = literal 5 10
  base_value ProficiencyLevel.advanced = literal 75 100
  base_value ProficiencyLevel.expert = whole N 1

  abbrev pub verified_multiplier : Value
  verified_multiplier = literal 11 10

  unfoldable pub proficiency_value : ProficiencyLevel → Bool → Value
  proficiency_value level true =
      smaller N (whole N 1) (times (base_value level) verified_multiplier)
  proficiency_value level false = base_value level
