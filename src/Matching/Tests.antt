-- ===== src/Matching/Tests.antt =====
-- Runs of the filters, the ranking and the shortlist on the samples.
use salesforce_expert_suppor.Prelude.{
  ℕ, ◌+◌, ◌≤◌, ◌≡◌, refl, ◌↔◌, ◌⊎◌, inl, true, false, none, some, [], ◌∷◌, ◌++◌, min, arith, length,
  In, Sorted, ℕ_discrete,
}
use salesforce_expert_suppor.Contracts.{ProficiencyLevel, ExclusionReason-discrete}
use salesforce_expert_suppor.Experts.Status.{is_eligible_for_matching}
use salesforce_expert_suppor.Experts.Availability.{evaluate_eligibility, is_heartbeat_fresh}
use salesforce_expert_suppor.Matching.Number.{thousandths}
use salesforce_expert_suppor.Matching.Proficiency.{
  proficiency_rank, meets_floor, proficiency_value, strictest_floor,
}
use salesforce_expert_suppor.Matching.Relaxation.{
  RelaxationRule, relaxation_ladder, clamp_level, floor_for_level, rule_for_level, scheduled_level,
  default_relaxation_schedule_seconds,
}
use salesforce_expert_suppor.Matching.Floors.{rule_for_level_floor, scheduled_level_mono}
use salesforce_expert_suppor.Matching.Scoring.{
  score_candidate, shrunk_rating, score_experience, score_rating, score_fairness, score_reliability,
}
use salesforce_expert_suppor.Matching.Skills.{
  match_skill, score_skills, tally_skills, tally_skill, finish_skills,
}
use salesforce_expert_suppor.Matching.Filters.{
  filter_eligibility, filter_competence, apply_filters, missing_primary, below_floor,
  covers_too_few, rating_below_floor, no_language_overlap, is_below_absolute_floor,
  permanent_for_this_request, pushed_reasons,
}
use salesforce_expert_suppor.Matching.Rank.{
  RankedCandidate, Entry, RankingResult, rank_under, rank_candidates, survivors, excluded_entries,
  number_from, compare_candidates, by_band,
}
use salesforce_expert_suppor.Matching.Hash.{seeded_hash, hash_from, xor_bits}
use salesforce_expert_suppor.Matching.Shortlist.{select_shortlist, should_close_interest_window}
use salesforce_expert_suppor.Matching.Competence.{filter_competence-widens}
use salesforce_expert_suppor.Matching.Permanent.{permanent_excluded}
use salesforce_expert_suppor.Matching.Order.{rank_candidates-Sorted}
use salesforce_expert_suppor.Matching.Admitted.{rank_candidates-floor, HasSkill}
use salesforce_expert_suppor.Matching.Accounted.{rank_candidates_total}
use salesforce_expert_suppor.Matching.Choice.{
  interested_of, select_shortlist-partition, select_shortlist-outranks,
  should_close_interest_window_iff,
}
use salesforce_expert_suppor.Matching.Samples.{
  need, someone, ready_to_work, request, code_units, strict, wide, ranking, first_of, context,
}

rank_candidates-floor_example :
    (entry : Entry) × In entry request.candidates
    × (entry.candidate.expert_profile_id ≡ (first_of ranking.ranked).expert_profile_id)
    × HasSkill entry.candidate need ProficiencyLevel.intermediate
    × ((rule : RelaxationRule) × (rule_for_level 0 ≡ some rule)
        × HasSkill entry.candidate need rule.primary_floor)
unfolding rank_candidates rule_for_level floor_for_level clamp_level relaxation_ladder
    strictest_floor proficiency_rank rank_under survivors apply_filters filter_eligibility
    evaluate_eligibility is_eligible_for_matching is_heartbeat_fresh pushed_reasons
    filter_competence missing_primary below_floor match_skill meets_floor covers_too_few
    rating_below_floor no_language_overlap shrunk_rating compare_candidates score_candidate
    score_skills tally_skills tally_skill finish_skills score_experience score_rating score_fairness
    score_reliability proficiency_value seeded_hash hash_from xor_bits number_from excluded_entries
    is_below_absolute_floor permanent_for_this_request ExclusionReason-discrete ℕ_discrete
rank_candidates-floor_example =
    rank_candidates-floor thousandths code_units request ranking (first_of ranking.ranked) need refl
      (inl refl) (inl refl) refl

rank_candidates-Sorted_example :
    Sorted (compare_candidates thousandths code_units request.tie_break_seed) ranking.ranked
    × Sorted (by_band thousandths) ranking.ranked
unfolding rank_candidates rule_for_level floor_for_level clamp_level relaxation_ladder
    strictest_floor proficiency_rank
rank_candidates-Sorted_example = rank_candidates-Sorted thousandths code_units request ranking refl

rank_candidates_total_example :
    (result : RankingResult thousandths) × (rank_candidates thousandths code_units request
      ≡ some result)
    × (result.eligible_count + length result.excluded ≡ length request.candidates)
    × (length result.ranked ≡ min request.pool_size result.eligible_count)
rank_candidates_total_example = rank_candidates_total thousandths code_units request

filter_competence-widens_example :
    filter_competence thousandths
      (someone 1 ProficiencyLevel.advanced)
      (record context { rule = wide })
    ≡ []
unfolding rank_candidates rule_for_level floor_for_level clamp_level relaxation_ladder
    strictest_floor proficiency_rank rank_under survivors apply_filters filter_eligibility
    evaluate_eligibility is_eligible_for_matching is_heartbeat_fresh pushed_reasons
    filter_competence missing_primary below_floor match_skill meets_floor covers_too_few
    rating_below_floor no_language_overlap shrunk_rating compare_candidates score_candidate
    score_skills tally_skills tally_skill finish_skills score_experience score_rating score_fairness
    score_reliability proficiency_value seeded_hash hash_from xor_bits number_from excluded_entries
    is_below_absolute_floor permanent_for_this_request ExclusionReason-discrete ℕ_discrete
filter_competence-widens_example =
    filter_competence-widens thousandths (someone 1 ProficiencyLevel.advanced) context 0 3 strict
      wide refl refl (omega arith) refl

permanent_excluded_example :
    (apply_filters thousandths
      (someone 2 ProficiencyLevel.beginner)
      (record ready_to_work { last_heartbeat_at = some 5000 })
      (record context { rule = wide; now = 6000 })).passed
    ≡ false
unfolding rank_candidates rule_for_level floor_for_level clamp_level relaxation_ladder
    strictest_floor proficiency_rank rank_under survivors apply_filters filter_eligibility
    evaluate_eligibility is_eligible_for_matching is_heartbeat_fresh pushed_reasons
    filter_competence missing_primary below_floor match_skill meets_floor covers_too_few
    rating_below_floor no_language_overlap shrunk_rating compare_candidates score_candidate
    score_skills tally_skills tally_skill finish_skills score_experience score_rating score_fairness
    score_reliability proficiency_value seeded_hash hash_from xor_bits number_from excluded_entries
    is_below_absolute_floor permanent_for_this_request ExclusionReason-discrete ℕ_discrete
permanent_excluded_example =
    permanent_excluded thousandths (someone 2 ProficiencyLevel.beginner) ready_to_work
      (record ready_to_work { last_heartbeat_at = some 5000 }) context
      (record context { rule = wide; now = 6000 }) 3 refl refl refl (λ e. e) (λ e. e)

rule_for_level_floor_example :
    (rule : RelaxationRule) × (rule_for_level 2 ≡ some rule)
    × (meets_floor rule.primary_floor ProficiencyLevel.intermediate ≡ true)
rule_for_level_floor_example = rule_for_level_floor 2

scheduled_level_mono_example :
    (scheduled_level 100 default_relaxation_schedule_seconds
      ≤ scheduled_level 400 default_relaxation_schedule_seconds)
    × (scheduled_level 400 default_relaxation_schedule_seconds ≤ 3)
scheduled_level_mono_example =
    scheduled_level_mono 100 400 default_relaxation_schedule_seconds (omega arith)

select_shortlist-partition_example :
    let decision = select_shortlist thousandths ranking.ranked (2 ∷ 3 ∷ []) none in
    (length decision.shortlisted
      ≡ min 3 (length (interested_of thousandths ranking.ranked (2 ∷ 3 ∷ []))))
    × (decision.shortlisted ++ decision.reserves
        ≡ interested_of thousandths ranking.ranked (2 ∷ 3 ∷ []))
select_shortlist-partition_example =
    select_shortlist-partition thousandths ranking.ranked (2 ∷ 3 ∷ []) none

-- Whoever is shown first where one is shown, and the first in reserve.
abbrev shown_of : RankedCandidate thousandths
shown_of =
    first_of (select_shortlist thousandths ranking.ranked (1 ∷ 2 ∷ 3 ∷ []) (some 1)).shortlisted

abbrev reserve_of : RankedCandidate thousandths
reserve_of =
    first_of (select_shortlist thousandths ranking.ranked (1 ∷ 2 ∷ 3 ∷ []) (some 1)).reserves

select_shortlist-outranks_example :
    (length (select_shortlist thousandths ranking.ranked (1 ∷ 2 ∷ 3 ∷ []) (some 1)).shortlisted ≡ 1)
    × In shown_of ranking.ranked
    × In shown_of.expert_profile_id (1 ∷ 2 ∷ 3 ∷ [])
    × (compare_candidates thousandths code_units request.tie_break_seed reserve_of shown_of ≡ false)
    × (by_band thousandths reserve_of shown_of ≡ false)
unfolding rank_candidates rule_for_level floor_for_level clamp_level relaxation_ladder
    strictest_floor proficiency_rank rank_under survivors apply_filters filter_eligibility
    evaluate_eligibility is_eligible_for_matching is_heartbeat_fresh pushed_reasons
    filter_competence missing_primary below_floor match_skill meets_floor covers_too_few
    rating_below_floor no_language_overlap shrunk_rating compare_candidates score_candidate
    score_skills tally_skills tally_skill finish_skills score_experience score_rating score_fairness
    score_reliability proficiency_value seeded_hash hash_from xor_bits number_from excluded_entries
    is_below_absolute_floor permanent_for_this_request ExclusionReason-discrete ℕ_discrete
    select_shortlist
select_shortlist-outranks_example =
    select_shortlist-outranks thousandths code_units request ranking (1 ∷ 2 ∷ 3 ∷ []) (some 1)
      shown_of reserve_of refl (inl refl) (inl refl)

should_close_interest_window_iff_example :
    ((should_close_interest_window 1 60 45 none ≡ true) ↔ ((3 ≤ 1) ⊎ ((45 ≤ 60) × (1 ≤ 1))))
    × ((should_close_interest_window 0 60 45 none ≡ true) ↔ (◌≡◌ {A = ℕ} 3 0))
should_close_interest_window_iff_example = should_close_interest_window_iff 1 60 45 none
