-- ===== src/Matching/Floors.antt =====
-- What the ladder of matching/relaxation.ts guarantees, at every level and for every schedule.
use salesforce_expert_suppor.Prelude.{
  ℕ, suc, ◌≤◌, ◌≡◌, refl, ◌⊎◌, inl, inr, Bool, true, false, some, List, [], ◌∷◌, arith,
}
use salesforce_expert_suppor.Contracts.{ProficiencyLevel}
use salesforce_expert_suppor.Matching.Proficiency.{proficiency_rank, meets_floor, strictest_floor}
use salesforce_expert_suppor.Matching.Relaxation.{
  RelaxationRule, relaxation_ladder, clamp_level, floor_for_level, rule_for_level, scheduled_from,
  scheduled_level,
}

clamp_cases :
    (level : ℕ)
    → ((level ≡ 0) × (clamp_level level ≡ 0))
      ⊎ ((level ≡ 1) × (clamp_level level ≡ 1))
      ⊎ ((level ≡ 2) × (clamp_level level ≡ 2))
      ⊎ ((3 ≤ level) × (clamp_level level ≡ 3))
unfolding clamp_level
clamp_cases level = ground arith

-- What a rule at a given step of the ladder says.
abbrev pub Step : ProficiencyLevel → Bool → Bool → RelaxationRule → Type 0
Step floor rating language rule =
    (rule.primary_floor ≡ floor)
    × (rule.secondary_coverage ≡ 0)
    × (rule.enforce_rating_floor ≡ rating)
    × (rule.enforce_language ≡ language)

pub rule_for_level_steps :
    (level : ℕ) (rule : RelaxationRule)
    → rule_for_level level ≡ some rule
    → ((level ≡ 0) × Step ProficiencyLevel.advanced true true rule)
      ⊎ ((level ≡ 1) × Step ProficiencyLevel.advanced false true rule)
      ⊎ ((level ≡ 2) × Step ProficiencyLevel.intermediate false false rule)
      ⊎ ((3 ≤ level) × Step ProficiencyLevel.intermediate false false rule)
unfolding rule_for_level floor_for_level relaxation_ladder strictest_floor proficiency_rank
rule_for_level_steps level rule h = elim (clamp_cases level) [
  | inl (e, c) ↦ let k = rw (c, rule_for_level, floor_for_level) at h in ground arith
  | inr (inl (e, c)) ↦ let k = rw (c, rule_for_level, floor_for_level) at h in ground arith
  | inr (inr (inl (e, c))) ↦ let k = rw (c, rule_for_level, floor_for_level) at h in ground arith
  | inr (inr (inr (e, c))) ↦ let k = rw (c, rule_for_level, floor_for_level) at h in ground arith
]

-- Every level has a rule, and the rule's floor is INTERMEDIATE or better: no level admits a
-- BEGINNER on a primary skill.
pub rule_for_level_floor :
    (level : ℕ)
    → (rule : RelaxationRule) × (rule_for_level level ≡ some rule)
      × (meets_floor rule.primary_floor ProficiencyLevel.intermediate ≡ true)
unfolding rule_for_level floor_for_level relaxation_ladder strictest_floor proficiency_rank
    meets_floor
rule_for_level_floor level = elim (clamp_cases level) [
  | inl (e, c) ↦ rw (c, rule_for_level, floor_for_level) (_, refl, rw (c, floor_for_level) refl)
  | inr (inl (e, c)) ↦
      rw (c, rule_for_level, floor_for_level) (_, refl, rw (c, floor_for_level) refl)
  | inr (inr (inl (e, c))) ↦
      rw (c, rule_for_level, floor_for_level) (_, refl, rw (c, floor_for_level) refl)
  | inr (inr (inr (e, c))) ↦
      rw (c, rule_for_level, floor_for_level) (_, refl, rw (c, floor_for_level) refl)
]

pub meets_absolute_floor :
    (level : ℕ) (rule : RelaxationRule)
    → rule_for_level level ≡ some rule
    → meets_floor rule.primary_floor ProficiencyLevel.intermediate ≡ true
unfolding meets_floor proficiency_rank
meets_absolute_floor level rule h = ground (arith, rule_for_level_steps level rule h)

-- At a later level every test is at most as strict: the floor does not rise, and a test that is off
-- stays off. No level requires coverage of the secondary skills.
pub rule_for_level-widens :
    (level later : ℕ) (rule wider : RelaxationRule)
    → rule_for_level level ≡ some rule
    → rule_for_level later ≡ some wider
    → level ≤ later
    → (meets_floor rule.primary_floor wider.primary_floor ≡ true)
      × (wider.secondary_coverage ≡ 0)
      × (rule.enforce_rating_floor ≡ false → wider.enforce_rating_floor ≡ false)
      × (rule.enforce_language ≡ false → wider.enforce_language ≡ false)
unfolding meets_floor proficiency_rank
rule_for_level-widens level later rule wider h k l =
    ground (arith, rule_for_level_steps level rule h, rule_for_level_steps later wider k)

scheduled_from-bound :
    (elapsed index level : ℕ) (schedule : List ℕ)
    → level ≤ 3
    → scheduled_from elapsed index level schedule ≤ 3
unfolding scheduled_from
scheduled_from-bound elapsed index level [] h = h
scheduled_from-bound elapsed index level (s ∷ rest) h = ground (
  arith,
  scheduled_from-bound elapsed (suc index) index rest,
  scheduled_from-bound elapsed (suc index) level rest,
)

scheduled_from_mono :
    (elapsed later index level higher : ℕ) (schedule : List ℕ)
    → elapsed ≤ later
    → level ≤ higher
    → higher ≤ index
    → scheduled_from elapsed index level schedule ≤ scheduled_from later index higher schedule
unfolding scheduled_from
scheduled_from_mono elapsed later index level higher [] e l i = l
scheduled_from_mono elapsed later index level higher (s ∷ rest) e l i = ground (
  arith,
  scheduled_from_mono elapsed later (suc index) index index rest,
  scheduled_from_mono elapsed later (suc index) level index rest,
  scheduled_from_mono elapsed later (suc index) level higher rest,
)

-- For every schedule, ascending or not: the level is at most 3, and it never falls as time passes.
pub scheduled_level_mono :
    (elapsed later : ℕ) (schedule : List ℕ)
    → elapsed ≤ later
    → (scheduled_level elapsed schedule ≤ scheduled_level later schedule)
      × (scheduled_level later schedule ≤ 3)
unfolding scheduled_level
scheduled_level_mono elapsed later schedule h = (
  scheduled_from_mono elapsed later 0 0 0 schedule h (omega arith) (omega arith),
  scheduled_from-bound later 0 0 schedule (omega arith),
)
