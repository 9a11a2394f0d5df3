-- ===== src/Matching/Admitted.antt =====
-- Whom `rankCandidates` of matching/rank.ts admits, and what it leaves out of its answer.
use salesforce_expert_suppor.Prelude.{
  ℕ, suc, ◌≡◌, refl, sym, ◌∙◌, ap, inl, inr, Bool, true, false, Option, none, some, List, [], ◌∷◌,
  ◌++◌, arith, take, sort_by, take-In, In-sort_by, In, In-select, In→any, find_first-In, Bool-cases,
  ==_iff, ◌==◌,
}
use mathlib.Core.Path.{subst}
use salesforce_expert_suppor.Contracts.{ProficiencyLevel}
use salesforce_expert_suppor.Experts.Availability.{is_empty}
use salesforce_expert_suppor.Matching.Number.{Number}
use salesforce_expert_suppor.Matching.Proficiency.{meets_floor}
use salesforce_expert_suppor.Matching.Candidate.{RequiredSkill, CandidateSkill, Candidate}
use salesforce_expert_suppor.Matching.Relaxation.{RelaxationRule, rule_for_level}
use salesforce_expert_suppor.Matching.Floors.{meets_absolute_floor}
use salesforce_expert_suppor.Matching.Skills.{match_skill, direct_match}
use salesforce_expert_suppor.Matching.Filters.{
  FilterContext, filter_eligibility, filter_competence, apply_filters, missing_primary, below_floor,
  is_missing, is_below, primaries, primary_match, CandidateEligibility,
}
use salesforce_expert_suppor.Matching.Competence.{filter_competence-nil}
use salesforce_expert_suppor.Matching.Rank.{
  Entry, RankingInput, RankedCandidate, RankingResult, compare_candidates, survivors, survivor_of,
  number_from, rank_under, rank_candidates, context_of,
}
use salesforce_expert_suppor.Matching.Order.{rank_candidates-rule}

append-is_empty : {A : Type 0} (xs ys : List A) → is_empty (xs ++ ys) ≡ true → ys ≡ []
append-is_empty [] ys h = ground arith
append-is_empty (x ∷ xs) ys h = cc

-- What it means for a candidate to have a skill at a floor or better.
abbrev pub HasSkill : Candidate → RequiredSkill → ProficiencyLevel → Type 0
HasSkill candidate need floor =
    (skill : CandidateSkill) × In skill candidate.skills
    × (skill.skill_id ≡ need.skill_id)
    × (meets_floor skill.proficiency_level floor ≡ true)

meets_floor_trans :
    (a b c : ProficiencyLevel)
    → meets_floor a b ≡ true
    → meets_floor b c ≡ true
    → meets_floor a c ≡ true
unfolding meets_floor
meets_floor_trans a b c h k = ground arith

module _ (N : Number) where
  -- Nothing stands in for a primary skill, whatever the options are.
  pub match_skill-primary :
      (need : RequiredSkill) (skills : List CandidateSkill) (allow : Bool) (spoken_for : List ℕ)
      → need.is_primary ≡ true
      → (match_skill N need skills allow spoken_for).skill ≡ direct_match need skills
  unfolding match_skill
  match_skill-primary need skills allow spoken_for h = ground arith

  direct_match-HasSkill :
      (candidate : Candidate) (need : RequiredSkill) (floor : ProficiencyLevel)
      (found : Option CandidateSkill)
      → direct_match need candidate.skills ≡ found
      → is_missing found ≡ false
      → is_below floor found ≡ false
      → HasSkill candidate need floor
  direct_match-HasSkill candidate need floor none e m b = cc
  direct_match-HasSkill candidate need floor (some s) e m b =
      let (i, t) = find_first-In (λ s. s.skill_id == need.skill_id) candidate.skills s e in
      (s, i, (==_iff s.skill_id need.skill_id).0 t, ground arith)

  passed-HasSkill :
      (candidate : Candidate) (eligibility : CandidateEligibility) (context : FilterContext N)
      (need : RequiredSkill)
      → (apply_filters N candidate eligibility context).passed ≡ true
      → In need context.required
      → need.is_primary ≡ true
      → HasSkill candidate need context.rule.primary_floor
  unfolding apply_filters missing_primary below_floor
  passed-HasSkill candidate eligibility context need h i p =
      let (missing, below, _, _, _) = (filter_competence-nil N candidate context).0 (
        append-is_empty (filter_eligibility N eligibility context)
          (filter_competence N candidate context) h) in
      let found = primary_match N candidate need in
      let is_in = In-select (λ r. r.is_primary) context.required need i p in
      direct_match-HasSkill candidate need context.rule.primary_floor found
        (sym (match_skill-primary need candidate.skills false (need.skill_id ∷ []) p))
        (ground (
          arith,
          In→any (λ r. is_missing (primary_match N candidate r)) (primaries context.required) need
              is_in,
        ))
        (ground (
          arith,
          In→any (λ r. is_below context.rule.primary_floor (primary_match N candidate r))
              (primaries context.required) need is_in,
        ))

  survivors-In :
      (input : RankingInput N) (rule : RelaxationRule) (entries : List Entry)
      (c : RankedCandidate N)
      → In c (survivors N input rule entries)
      → (entry : Entry) × In entry entries
        × ((apply_filters N entry.candidate entry.eligibility (context_of N input rule)).passed
            ≡ true)
        × (survivor_of N input rule entry.candidate ≡ c)
  unfolding survivors
  survivors-In input rule [] c h = absurd h
  survivors-In input rule (entry ∷ rest) c h =
      let outcome = apply_filters N entry.candidate entry.eligibility (context_of N input rule) in
      elim (Bool-cases outcome.passed) [
        | inl e ↦ elim (rw (e, survivors) at h) [
          | inl s ↦ (entry, inl refl, e, s)
          | inr i ↦ let (found, j, p, s) = survivors-In input rule rest c i in (found, inr j, p, s)
        ]
        | inr e ↦
            let (found, j, p, s) = survivors-In input rule rest c (rw (e, survivors) at h) in
            (found, inr j, p, s)
      ]

  number_from-In :
      (index : ℕ) (cs : List (RankedCandidate N)) (c : RankedCandidate N)
      → In c (number_from N index cs)
      → (d : RankedCandidate N) × In d cs
        × (d.expert_profile_id ≡ c.expert_profile_id)
        × (d.score ≡ c.score)
  unfolding number_from
  number_from-In index [] c h = absurd h
  number_from-In index (d ∷ rest) c (inl e) =
      (d, inl refl, ap (λ r. r.expert_profile_id) e, ap (λ r. r.score) e)
  number_from-In index (d ∷ rest) c (inr i) =
      let (f, j, s, t) = number_from-In (suc index) rest c i in (f, inr j, s, t)

  -- The competence floor. Whoever is ranked, at any level, for any skill that the request names as
  -- primary, comes from a candidate of the input who has declared that skill itself, at the level of
  -- the rule's floor or better, and at INTERMEDIATE or better.
  pub rank_candidates-floor :
      (code_units : ℕ → List ℕ) (input : RankingInput N) (result : RankingResult N)
      (c : RankedCandidate N) (need : RequiredSkill)
      → rank_candidates N code_units input ≡ some result
      → In c result.ranked
      → In need input.required
      → need.is_primary ≡ true
      → (entry : Entry) × In entry input.candidates
        × (entry.candidate.expert_profile_id ≡ c.expert_profile_id)
        × HasSkill entry.candidate need ProficiencyLevel.intermediate
        × ((rule : RelaxationRule) × (rule_for_level input.relaxation_level ≡ some rule)
            × HasSkill entry.candidate need rule.primary_floor)
  unfolding rank_under
  rank_candidates-floor code_units input result c need h i n p =
      let (rule, e, r) = rank_candidates-rule N code_units input result h in
      let j = subst (λ (s : RankingResult N). In c s.ranked) (sym r) i in
      let before = compare_candidates N code_units input.tie_break_seed in
      let found = survivors N input rule input.candidates in
      let (d, k, s, _) = number_from-In 0 (take input.pool_size (sort_by before found)) c j in
      let l = (In-sort_by before d found).0 (take-In input.pool_size (sort_by before found) d k) in
      let (entry, m, passed, t) = survivors-In input rule input.candidates d l in
      let (skill, a, b, f) =
        passed-HasSkill entry.candidate entry.eligibility (context_of N input rule) need passed n
          p in
      (
        entry,
        m,
        ap (λ x. x.expert_profile_id) t ∙ s,
        (
          skill,
          a,
          b,
          meets_floor_trans skill.proficiency_level rule.primary_floor ProficiencyLevel.intermediate
              f (meets_absolute_floor input.relaxation_level rule e),
        ),
        (rule, e, (skill, a, b, f)),
      )
