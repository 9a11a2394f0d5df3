-- ===== src/Matching/Accounted.antt =====
-- `rankCandidates` of matching/rank.ts accounts for everyone: totals, places and numbering.
use salesforce_expert_suppor.Prelude.{
  ℕ, zero, suc, ◌+◌, ◌≡◌, refl, sym, ◌∙◌, ap, some, List, [], ◌∷◌, arith, min, length, take,
  get_elem?, length-take, sort_by, length-sort_by,
}
use mathlib.Core.Path.{subst}
use salesforce_expert_suppor.Matching.Number.{Number}
use salesforce_expert_suppor.Matching.Relaxation.{RelaxationRule}
use salesforce_expert_suppor.Matching.Floors.{rule_for_level_floor}
use salesforce_expert_suppor.Matching.Rank.{
  Entry, RankingInput, RankedCandidate, RankingResult, compare_candidates, survivors,
  excluded_entries, number_from, rank_under, rank_candidates,
}
use salesforce_expert_suppor.Matching.Order.{rank_candidates-rule}

module _ (N : Number) where
  survivors_and_excluded :
      (input : RankingInput N) (rule : RelaxationRule) (entries : List Entry)
      → length (survivors N input rule entries) + length (excluded_entries N input rule entries)
        ≡ length entries
  unfolding survivors excluded_entries
  survivors_and_excluded input rule [] = refl
  survivors_and_excluded input rule (entry ∷ rest) =
      ground (arith, survivors_and_excluded input rule rest)

  length-number_from :
      (index : ℕ) (cs : List (RankedCandidate N)) → length (number_from N index cs) ≡ length cs
  unfolding number_from
  length-number_from index [] = refl
  length-number_from index (c ∷ rest) = ap (λ n. suc n) (length-number_from (suc index) rest)

  number_from-rank :
      (index place : ℕ) (cs : List (RankedCandidate N)) (c : RankedCandidate N)
      → get_elem? (number_from N index cs) place ≡ some c
      → c.rank ≡ index + place + 1
  unfolding number_from
  number_from-rank index place [] c h = cc
  number_from-rank index zero (d ∷ rest) c h = ground arith
  number_from-rank index (suc place) (d ∷ rest) c h =
      omega (arith, number_from-rank (suc index) place rest c h)

  -- Ranking always gives a result, at every level; everyone given is counted once, as eligible or as
  -- excluded; and the ranked are as many of the eligible as the pool takes.
  pub rank_candidates_total :
      (code_units : ℕ → List ℕ) (input : RankingInput N)
      → (result : RankingResult N) × (rank_candidates N code_units input ≡ some result)
        × (result.eligible_count + length result.excluded ≡ length input.candidates)
        × (length result.ranked ≡ min input.pool_size result.eligible_count)
  unfolding rank_candidates rank_under
  rank_candidates_total code_units input =
      let (rule, e, _) = rule_for_level_floor input.relaxation_level in
      let before = compare_candidates N code_units input.tie_break_seed in
      let found = survivors N input rule input.candidates in
      (
        rank_under N code_units input rule,
        rw (e, rank_candidates) refl,
        omega (
          arith,
          length-sort_by before found,
          survivors_and_excluded input rule input.candidates,
        ),
        length-number_from 0 (take input.pool_size (sort_by before found))
            ∙ length-take input.pool_size (sort_by before found),
      )

  -- The candidate at each place of the ranking carries that place, counted from 1, as its rank.
  pub rank_candidates-rank :
      (code_units : ℕ → List ℕ) (input : RankingInput N) (result : RankingResult N) (place : ℕ)
      (c : RankedCandidate N)
      → rank_candidates N code_units input ≡ some result
      → get_elem? result.ranked place ≡ some c
      → c.rank ≡ place + 1
  unfolding rank_under
  rank_candidates-rank code_units input result place c h i =
      let (rule, e, r) = rank_candidates-rule N code_units input result h in
      let sorted =
        sort_by (compare_candidates N code_units input.tie_break_seed)
          (survivors N input rule input.candidates) in
      omega (
        arith,
        number_from-rank 0 place (take input.pool_size sorted) c
            (subst (λ (s : RankingResult N). get_elem? s.ranked place ≡ some c) (sym r) i),
      )
