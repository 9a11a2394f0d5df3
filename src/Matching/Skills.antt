-- ===== src/Matching/Skills.antt =====
-- The skill part of matching/scoring.ts: which of a candidate's skills answers a required one, and the
-- score of them all.
use salesforce_expert_suppor.Prelude.{
  ℕ, Bool, true, false, not, ◌&&◌, if◌then◌else◌, Option, none, some, List, [], ◌∷◌, ◌++◌, map,
  select, includes, find_first, sort_by, ◌==◌, ℕ_discrete,
}
use salesforce_expert_suppor.Int.{ℤ, pos, negsuc, ltb_ℤ}
use salesforce_expert_suppor.Contracts.{ProficiencyLevel}
use salesforce_expert_suppor.Matching.Number.{Number, whole, smaller, round}
use salesforce_expert_suppor.Matching.Proficiency.{proficiency_rank, proficiency_value}
use salesforce_expert_suppor.Matching.Candidate.{
  RequiredSkill, CandidateSkill, Candidate, SkillScoreDetail,
}

-- What `matchSkill` answers: the skill, and whether it stands in for another of its category.
pub record SkillMatch : Type 0 where
  pub skill : Option CandidateSkill
  pub via_category : Bool

abbrev pub direct_match : RequiredSkill → List CandidateSkill → Option CandidateSkill
direct_match required skills = find_first (λ s. s.skill_id == required.skill_id) skills

abbrev pub no_primary_band : ℕ
no_primary_band = 99

-- `Math.min` on bands.
abbrev pub min_band : ℤ → ℤ → ℤ
min_band a b = if ltb_ℤ b a then b else a

-- `skill ? proficiencyRank(skill.proficiencyLevel) : -1`
abbrev pub band_of : Option CandidateSkill → ℤ
band_of none = negsuc 0
band_of (some skill) = pos (proficiency_rank skill.proficiency_level)

module _ (N : Number) where
  open N use {Value, literal, plus, minus, times, over, less}

  -- The comparator of `matchSkill`'s sort: the better level first, verification left out.
  abbrev pub stronger : CandidateSkill → CandidateSkill → Bool
  stronger a b =
      less (proficiency_value N b.proficiency_level false)
        (proficiency_value N a.proficiency_level false)

  abbrev pub first_sibling : List CandidateSkill → SkillMatch
  first_sibling [] = record { skill = none; via_category = false }
  first_sibling (s ∷ _) = record { skill = some s; via_category = true }

  unfoldable pub match_skill : RequiredSkill → List CandidateSkill → Bool → List ℕ → SkillMatch
  match_skill required skills allow_category_substitute spoken_for =
      elim (direct_match required skills) [
        | some direct ↦ record { skill = some direct; via_category = false }
        | none ↦
            if not (allow_category_substitute && not required.is_primary)
            then record { skill = none; via_category = false }
            else first_sibling (
                sort_by stronger (
                  select
                    (λ s.
                      (s.category_id == required.category_id)
                      && not (includes ℕ_discrete s.skill_id spoken_for))
                    skills))
      ]

  -- The variables of the loop of `scoreSkills`.
  pub record SkillTally : Type 0 where
    pub per_skill : List (SkillScoreDetail N)
    pub weighted_sum : Value
    pub weight_total : Value
    pub min_primary_value : Value
    pub min_primary_band : ℤ
    pub saw_primary : Bool

  abbrev skill_value : Option CandidateSkill → Value
  skill_value none = whole N 0
  skill_value (some s) = proficiency_value N s.proficiency_level s.verified

  abbrev matched_level : Option CandidateSkill → Option ProficiencyLevel
  matched_level none = none
  matched_level (some s) = some s.proficiency_level

  abbrev matched_verified : Option CandidateSkill → Bool
  matched_verified none = false
  matched_verified (some s) = s.verified

  -- One round of that loop, on the match found.
  unfoldable pub tally_skill : RequiredSkill → SkillMatch → SkillTally → SkillTally
  tally_skill need found t =
      let value = skill_value found.skill in
      let weight = if need.is_primary then whole N 1 else literal 5 10 in
      record {
        per_skill =
            t.per_skill
            ++ (record {
              slug = need.slug;
              is_primary = need.is_primary;
              proficiency_level = matched_level found.skill;
              verified = matched_verified found.skill;
              value = round N value;
              via_category = found.via_category;
            }
                ∷ []);
        weighted_sum = plus t.weighted_sum (times weight value);
        weight_total = plus t.weight_total weight;
        min_primary_value =
            if need.is_primary then smaller N t.min_primary_value value else t.min_primary_value;
        min_primary_band =
            if need.is_primary
            then min_band t.min_primary_band (band_of found.skill)
            else t.min_primary_band;
        saw_primary = if need.is_primary then true else t.saw_primary;
      }

  unfoldable pub tally_skills :
      List RequiredSkill → List CandidateSkill → Bool → List ℕ → SkillTally → SkillTally
  tally_skills [] skills allow spoken_for t = t
  tally_skills (need ∷ rest) skills allow spoken_for t =
      tally_skills rest skills allow spoken_for
        (tally_skill need (match_skill need skills allow spoken_for) t)

  abbrev pub empty_tally : SkillTally
  empty_tally = record {
    per_skill = [];
    weighted_sum = whole N 0;
    weight_total = whole N 0;
    min_primary_value = whole N 1;
    min_primary_band = pos no_primary_band;
    saw_primary = false;
  }

  pub record SkillScores : Type 0 where
    pub skill_score : Value
    pub weighted_average : Value
    pub min_primary_value : Value
    pub primary_band : ℤ
    pub per_skill : List (SkillScoreDetail N)

  -- The part of `scoreSkills` after its loop.
  unfoldable pub finish_skills : SkillTally → SkillScores
  finish_skills t =
      let average =
        if less (whole N 0) t.weight_total then over t.weighted_sum t.weight_total else whole N 0 in
      let weakest = if t.saw_primary then t.min_primary_value else average in
      record {
        skill_score = round N (
            plus (times (minus (whole N 1) (literal 3 10)) average) (times (literal 3 10) weakest));
        weighted_average = round N average;
        min_primary_value = round N weakest;
        primary_band = if t.saw_primary then t.min_primary_band else pos no_primary_band;
        per_skill = t.per_skill;
      }

  unfoldable pub score_skills : List RequiredSkill → Candidate → Bool → SkillScores
  score_skills required candidate allow_category_substitute = finish_skills (
      tally_skills required candidate.skills allow_category_substitute
        (map (λ r. r.skill_id) required) empty_tally)
