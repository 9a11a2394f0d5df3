-- ===== src/Matching/Relaxation.antt =====
-- matching/relaxation.ts: the ladder by which a search widens. `secondaryCoverage` is a fraction, 0
-- in the whole table, and kept in hundredths; `describes` is text, and left out. Levels are natural
-- numbers (`clampLevel` also maps a negative level or `Infinity` to 0).
use salesforce_expert_suppor.Prelude.{
  ℕ, suc, Bool, true, false, Option, none, some, List, [], ◌∷◌, map, min, leb, ltb, get_elem?,
  if◌then◌else◌,
}
use salesforce_expert_suppor.Contracts.{ProficiencyLevel}
use salesforce_expert_suppor.Matching.Proficiency.{meets_floor, strictest_floor}

abbrev pub absolute_primary_floor : ProficiencyLevel
absolute_primary_floor = ProficiencyLevel.intermediate

abbrev pub max_relaxation_level : ℕ
max_relaxation_level = 3

pub record RelaxationRule : Type 0 where
  pub level : ℕ
  pub engages_at_seconds : ℕ
  pub primary_floor : ProficiencyLevel
  pub secondary_coverage : ℕ
  pub enforce_rating_floor : Bool
  pub enforce_language : Bool
  pub widen_secondary_to_category : Bool

unfoldable pub relaxation_ladder : List RelaxationRule
relaxation_ladder =
    record {
      level = 0;
      engages_at_seconds = 0;
      primary_floor = ProficiencyLevel.advanced;
      secondary_coverage = 0;
      enforce_rating_floor = true;
      enforce_language = true;
      widen_secondary_to_category = false;
    }
    ∷ record {
      level = 1;
      engages_at_seconds = 90;
      primary_floor = ProficiencyLevel.advanced;
      secondary_coverage = 0;
      enforce_rating_floor = false;
      enforce_language = true;
      widen_secondary_to_category = false;
    }
    ∷ record {
      level = 2;
      engages_at_seconds = 180;
      primary_floor = ProficiencyLevel.intermediate;
      secondary_coverage = 0;
      enforce_rating_floor = false;
      enforce_language = false;
      widen_secondary_to_category = false;
    }
    ∷ record {
      level = 3;
      engages_at_seconds = 360;
      primary_floor = ProficiencyLevel.intermediate;
      secondary_coverage = 0;
      enforce_rating_floor = false;
      enforce_language = false;
      widen_secondary_to_category = true;
    }
    ∷ []

unfoldable pub clamp_level : ℕ → ℕ
clamp_level level = min level max_relaxation_level

-- `rule?.primaryFloor ?? ABSOLUTE_PRIMARY_FLOOR`
abbrev tabled_floor : Option RelaxationRule → ProficiencyLevel
tabled_floor none = absolute_primary_floor
tabled_floor (some rule) = rule.primary_floor

unfoldable pub floor_for_level : ℕ → ProficiencyLevel
floor_for_level level =
    strictest_floor (tabled_floor (get_elem? relaxation_ladder (clamp_level level)))
      absolute_primary_floor

-- `none` where the source throws: a level that the ladder lacks.
unfoldable pub rule_for_level : ℕ → Option RelaxationRule
rule_for_level level = elim (get_elem? relaxation_ladder (clamp_level level)) [
  | none ↦ none
  | some rule ↦ some (record rule { primary_floor = floor_for_level level })
]

unfoldable pub could_ever_qualify : ProficiencyLevel → Bool
could_ever_qualify primary_proficiency = meets_floor primary_proficiency absolute_primary_floor

unfoldable pub default_relaxation_schedule_seconds : List ℕ
unfolding relaxation_ladder
default_relaxation_schedule_seconds = map (λ rule. rule.engages_at_seconds) relaxation_ladder

-- The loop of `scheduledLevel`, from an index and the level found so far.
unfoldable pub scheduled_from : ℕ → ℕ → ℕ → List ℕ → ℕ
scheduled_from elapsed index level [] = level
scheduled_from elapsed index level (engages_at ∷ rest) =
    let next =
      scheduled_from elapsed (suc index) (if leb engages_at elapsed then index else level) rest in
    if ltb max_relaxation_level index then level else next

unfoldable pub scheduled_level : ℕ → List ℕ → ℕ
scheduled_level elapsed_seconds schedule = scheduled_from elapsed_seconds 0 0 schedule

-- `schedule[i] ?? DEFAULT[i] ?? 0`
abbrev or_else {ℓ} : {A : Type ℓ} → Option A → A → A
or_else none a = a
or_else (some b) a = b

unfoldable pub engages_at_seconds : ℕ → List ℕ → ℕ
engages_at_seconds level schedule =
    or_else (get_elem? schedule (clamp_level level))
      (or_else (get_elem? default_relaxation_schedule_seconds (clamp_level level)) 0)
