-- ===== src/Matching/Scoring.antt =====
-- matching/scoring.ts: how a candidate is scored for a request. Every number that is not a whole
-- count is a `Number`, computed by the operations and in the order of the source.
use salesforce_expert_suppor.Prelude.{
  ℕ, ◌+◌, Bool, if◌then◌else◌, Option, none, some, List, [], ◌∷◌, length, select, any, ◌==◌, ltb,
}
use salesforce_expert_suppor.Matching.Number.{Number, whole, smaller, larger, round}
use salesforce_expert_suppor.Matching.Candidate.{
  RequiredSkill, CandidateSkill, Candidate, ScoreComponents,
}
use salesforce_expert_suppor.Matching.Skills.{score_skills}

module _ (N : Number) where
  open N use {Value, literal, plus, minus, times, over, less}

  pub record ScoringWeights : Type 0 where
    pub skill : Value
    pub rating : Value
    pub experience : Value
    pub fairness : Value
    pub reliability : Value

  -- The scoring thresholds, with the filters' own three, which filters.ts adds to them.
  pub record Thresholds : Type 0 where
    pub fairness_horizon_minutes : ℕ
    pub rating_prior_count : ℕ
    pub rating_prior_mean : Value
    pub min_rating : Value
    pub min_rated_sessions : ℕ
    pub heartbeat_stale_after_seconds : ℕ

  abbrev pub default_weights : ScoringWeights
  default_weights = record {
    skill = literal 4 10;
    rating = literal 2 10;
    experience = literal 15 100;
    fairness = literal 15 100;
    reliability = literal 1 10;
  }

  abbrev total_years : List CandidateSkill → ℕ
  total_years [] = 0
  total_years (s ∷ rest) = s.years_experience + total_years rest

  unfoldable pub score_experience : List RequiredSkill → Candidate → Value
  score_experience required candidate =
      let relevant = select (λ s. any (λ r. r.skill_id == s.skill_id) required) candidate.skills in
      let average =
        if ltb 0 (length relevant)
        then over (whole N (total_years relevant)) (whole N (length relevant))
        else whole N 0 in
      round N (
        plus
          (times (literal 6 10)
            (smaller N (over (whole N candidate.years_experience) (whole N 10)) (whole N 1)))
          (times (literal 4 10) (smaller N (over average (whole N 8)) (whole N 1))))

  unfoldable pub shrunk_rating : Candidate → Thresholds → Value
  shrunk_rating candidate thresholds =
      over
        (plus (times (whole N thresholds.rating_prior_count) thresholds.rating_prior_mean)
          (whole N candidate.rating_sum))
        (plus (whole N thresholds.rating_prior_count) (whole N candidate.rating_count))

  unfoldable pub score_rating : Candidate → Thresholds → Value
  score_rating candidate thresholds =
      round N (over (shrunk_rating candidate thresholds) (whole N 5))

  -- `candidate.idleMinutes ?? thresholds.fairnessHorizonMinutes`
  abbrev idle_or : ℕ → Option ℕ → ℕ
  idle_or horizon none = horizon
  idle_or horizon (some minutes) = minutes

  unfoldable pub score_fairness : Candidate → Thresholds → Value
  score_fairness candidate thresholds =
      let horizon = thresholds.fairness_horizon_minutes in
      let idle_term =
        smaller N (over (whole N (idle_or horizon candidate.idle_minutes)) (whole N horizon))
          (whole N 1) in
      let load_discount = minus (whole N 1) (
        times (literal 3 10)
          (smaller N (over (whole N candidate.sessions_today) (whole N 6)) (whole N 1))) in
      round N (times idle_term load_discount)

  abbrev speed_bonus : Option ℕ → Value
  speed_bonus none = literal 5 10
  speed_bonus (some seconds) =
      larger N (whole N 0) (minus (whole N 1) (over (whole N seconds) (whole N 60)))

  unfoldable pub score_reliability : Candidate → Value
  score_reliability candidate =
      let accept_rate =
        over (plus (times (whole N 5) (literal 8 10)) (whole N candidate.offers_accepted))
          (plus (whole N 5) (whole N candidate.offers_received)) in
      round N (
        plus (times (literal 8 10) accept_rate)
          (times (literal 2 10) (speed_bonus candidate.avg_response_seconds)))

  unfoldable pub score_candidate :
      List RequiredSkill → Candidate → ScoringWeights → Thresholds → Bool → ScoreComponents N
  score_candidate required candidate weights thresholds allow_category_substitute =
      let skills = score_skills N required candidate allow_category_substitute in
      let experience_score = score_experience required candidate in
      let rating_score = score_rating candidate thresholds in
      let fairness_score = score_fairness candidate thresholds in
      let reliability_score = score_reliability candidate in
      let final =
        plus
          (plus
            (plus
              (plus (times weights.skill skills.skill_score) (times weights.rating rating_score))
              (times weights.experience experience_score))
            (times weights.fairness fairness_score))
          (times weights.reliability reliability_score) in
      record {
        skill_score = skills.skill_score;
        experience_score = experience_score;
        rating_score = rating_score;
        fairness_score = fairness_score;
        reliability_score = reliability_score;
        final_score = round N final;
        breakdown = record {
          weighted_average = skills.weighted_average;
          min_primary_value = skills.min_primary_value;
          primary_band = skills.primary_band;
          per_skill = skills.per_skill;
          shrunk_rating = round N (shrunk_rating candidate thresholds);
          acceptance_rate =
              if ltb 0 candidate.offers_received
              then some (
                  round N
                    (over (whole N candidate.offers_accepted) (whole N candidate.offers_received)))
              else none;
          idle_minutes = candidate.idle_minutes;
          sessions_today = candidate.sessions_today;
        };
      }
