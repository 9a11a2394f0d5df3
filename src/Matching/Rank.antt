-- ===== src/Matching/Rank.antt =====
-- matching/rank.ts: the pipeline from the candidates of a request to their order. The code units of
-- an expert's id are a parameter (`code_units`), for the tie-break by hash.
use salesforce_expert_suppor.Prelude.{
  ℕ, suc, ◌+◌, Bool, if◌then◌else◌, Option, none, some, List, [], ◌∷◌, ◌++◌, length, take, lex,
  sort_by, ltb,
}
use salesforce_expert_suppor.Int.{ltb_ℤ}
use salesforce_expert_suppor.Contracts.{ExclusionReason}
use salesforce_expert_suppor.Matching.Number.{Number}
use salesforce_expert_suppor.Matching.Candidate.{RequiredSkill, Candidate, ScoreComponents}
use salesforce_expert_suppor.Matching.Relaxation.{RelaxationRule, rule_for_level}
use salesforce_expert_suppor.Matching.Scoring.{ScoringWeights, Thresholds, score_candidate}
use salesforce_expert_suppor.Matching.Filters.{CandidateEligibility, FilterContext, apply_filters}
use salesforce_expert_suppor.Matching.Hash.{seeded_hash}

-- An element of `RankingInput.candidates`.
pub record Entry : Type 0 where
  pub candidate : Candidate
  pub eligibility : CandidateEligibility

pub record ExcludedCandidate : Type 0 where
  pub expert_profile_id : ℕ
  pub user_id : ℕ
  pub reasons : List ExclusionReason
  pub permanent : Bool

abbrev pub max_safe_integer : ℕ
max_safe_integer = 9007199254740991

-- `idleMinutes ?? Number.MAX_SAFE_INTEGER`
abbrev pub idle_or_max : Option ℕ → ℕ
idle_or_max none = max_safe_integer
idle_or_max (some minutes) = minutes

module _ (N : Number) where
  open N use {less}

  pub record RankingInput : Type 0 where
    pub required : List RequiredSkill
    pub candidates : List Entry
    pub relaxation_level : ℕ
    pub weights : ScoringWeights N
    pub thresholds : Thresholds N
    pub customer_languages : List ℕ
    pub now : ℕ
    pub pool_size : ℕ
    pub tie_break_seed : List ℕ

  pub record RankedCandidate : Type 0 where
    pub expert_profile_id : ℕ
    pub user_id : ℕ
    pub rank : ℕ
    pub score : ScoreComponents N

  pub record RankingResult : Type 0 where
    pub relaxation_level : ℕ
    pub ranked : List RankedCandidate
    pub excluded : List ExcludedCandidate
    pub eligible_count : ℕ

  -- The five tests of `compareCandidates`, each the larger first but the last.
  abbrev pub by_band : RankedCandidate → RankedCandidate → Bool
  by_band a b = ltb_ℤ b.score.breakdown.primary_band a.score.breakdown.primary_band

  abbrev pub by_score : RankedCandidate → RankedCandidate → Bool
  by_score a b = less b.score.final_score a.score.final_score

  abbrev pub by_min_primary : RankedCandidate → RankedCandidate → Bool
  by_min_primary a b = less b.score.breakdown.min_primary_value a.score.breakdown.min_primary_value

  abbrev pub by_idle : RankedCandidate → RankedCandidate → Bool
  by_idle a b =
      ltb (idle_or_max b.score.breakdown.idle_minutes) (idle_or_max a.score.breakdown.idle_minutes)

  abbrev pub by_hash : (ℕ → List ℕ) → List ℕ → RankedCandidate → RankedCandidate → Bool
  by_hash code_units seed a b =
      ltb (seeded_hash (seed ++ code_units a.expert_profile_id))
        (seeded_hash (seed ++ code_units b.expert_profile_id))

  -- Is the comparator negative, so that `a` stands before `b`?
  unfoldable pub compare_candidates :
      (ℕ → List ℕ) → List ℕ → RankedCandidate → RankedCandidate → Bool
  compare_candidates code_units seed =
      lex by_band (lex by_score (lex by_min_primary (lex by_idle (by_hash code_units seed))))

  abbrev pub context_of : RankingInput → RelaxationRule → FilterContext N
  context_of input rule = record {
    required = input.required;
    rule = rule;
    thresholds = input.thresholds;
    customer_languages = input.customer_languages;
    now = input.now;
  }

  abbrev pub survivor_of : RankingInput → RelaxationRule → Candidate → RankedCandidate
  survivor_of input rule candidate = record {
    expert_profile_id = candidate.expert_profile_id;
    user_id = candidate.user_id;
    rank = 0;
    score =
        score_candidate N input.required candidate input.weights input.thresholds
          rule.widen_secondary_to_category;
  }

  -- The loop of `rankCandidates`: what it pushes to `survivors`, and what to `excluded`.
  unfoldable pub survivors : RankingInput → RelaxationRule → List Entry → List RankedCandidate
  survivors input rule [] = []
  survivors input rule (entry ∷ rest) =
      if (apply_filters N entry.candidate entry.eligibility (context_of input rule)).passed
      then survivor_of input rule entry.candidate ∷ survivors input rule rest
      else survivors input rule rest

  unfoldable pub excluded_entries :
      RankingInput → RelaxationRule → List Entry → List ExcludedCandidate
  excluded_entries input rule [] = []
  excluded_entries input rule (entry ∷ rest) =
      let outcome = apply_filters N entry.candidate entry.eligibility (context_of input rule) in
      if outcome.passed
      then excluded_entries input rule rest
      else record {
        expert_profile_id = entry.candidate.expert_profile_id;
        user_id = entry.candidate.user_id;
        reasons = outcome.reasons;
        permanent = outcome.permanent;
      }
        ∷ excluded_entries input rule rest

  -- `.map((candidate, index) => ({ ...candidate, rank: index + 1 }))`, from an index.
  unfoldable pub number_from : ℕ → List RankedCandidate → List RankedCandidate
  number_from index [] = []
  number_from index (c ∷ rest) = record c { rank = index + 1 } ∷ number_from (suc index) rest

  -- The body of `rankCandidates` after its first line.
  unfoldable pub rank_under : (ℕ → List ℕ) → RankingInput → RelaxationRule → RankingResult
  rank_under code_units input rule =
      let sorted =
        sort_by (compare_candidates code_units input.tie_break_seed)
          (survivors input rule input.candidates) in
      record {
        relaxation_level = rule.level;
        ranked = number_from 0 (take input.pool_size sorted);
        excluded = excluded_entries input rule input.candidates;
        eligible_count = length sorted;
      }

  -- The source throws where the ladder has no such level; see `rule_for_level`.
  unfoldable pub rank_candidates : (ℕ → List ℕ) → RankingInput → Option RankingResult
  rank_candidates code_units input = elim (rule_for_level input.relaxation_level) [
    | none ↦ none
    | some rule ↦ some (rank_under code_units input rule)
  ]
