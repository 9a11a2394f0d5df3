-- ===== src/Matching/Order.antt =====
-- The order that matching/rank.ts puts candidates in.
use mathlib.Core.Path.{subst}
use salesforce_expert_suppor.Prelude.{
  ℕ, suc, ◌+◌, ◌≡◌, refl, sym, ◌∙◌, Bool, true, false, some, List, [], ◌∷◌, ◌++◌, arith, take, lex,
  sort_by, WeakOrder, lex-WeakOrder, Sorted, sort_by-Sorted, take-Sorted, All, All-In, In-All, ltb,
}
use salesforce_expert_suppor.Int.{ltb_ℤ, ℤ}
use salesforce_expert_suppor.Matching.Number.{Number}
use salesforce_expert_suppor.Matching.Relaxation.{RelaxationRule, rule_for_level}
use salesforce_expert_suppor.Matching.Floors.{rule_for_level_floor}
use salesforce_expert_suppor.Matching.Hash.{seeded_hash}
use salesforce_expert_suppor.Matching.Rank.{
  RankingInput, RankedCandidate, RankingResult, by_band, by_score, by_min_primary, by_idle, by_hash,
  compare_candidates, idle_or_max, survivors, number_from, rank_under, rank_candidates,
}

ltb_ℤ_asymm : (a b : ℤ) → ltb_ℤ a b ≡ true → ltb_ℤ b a ≡ false
ltb_ℤ_asymm a b h = ground arith

ltb_ℤ_cotrans : (a b c : ℤ) → ltb_ℤ a b ≡ false → ltb_ℤ b c ≡ false → ltb_ℤ a c ≡ false
ltb_ℤ_cotrans a b c h k = ground arith

ltb_asymm : (a b : ℕ) → ltb a b ≡ true → ltb b a ≡ false
ltb_asymm a b h = ground arith

ltb_cotrans : (a b c : ℕ) → ltb a b ≡ false → ltb b c ≡ false → ltb a c ≡ false
ltb_cotrans a b c h k = ground arith

-- A comparison through a key, the larger or the smaller key first.
key-WeakOrder :
    {A B : Type 0} (key : A → B) (lt : B → B → Bool)
    → WeakOrder lt
    → WeakOrder (λ x y. lt (key x) (key y))
key-WeakOrder key lt W = record {
  asymm = λ x y h. W.asymm (key x) (key y) h;
  cotrans = λ x y z h k. W.cotrans (key x) (key y) (key z) h k;
}

flip-WeakOrder : {A : Type 0} (lt : A → A → Bool) → WeakOrder lt → WeakOrder (λ x y. lt y x)
flip-WeakOrder lt W = record {
  asymm = λ x y h. W.asymm y x h;
  cotrans = λ x y z h k. W.cotrans z y x k h;
}

ltb-WeakOrder : WeakOrder ltb
ltb-WeakOrder = record { asymm = ltb_asymm; cotrans = ltb_cotrans }

ltb_ℤ-WeakOrder : WeakOrder ltb_ℤ
ltb_ℤ-WeakOrder = record { asymm = ltb_ℤ_asymm; cotrans = ltb_ℤ_cotrans }

some_inj : {A : Type 0} (a b : A) → some a ≡ some b → a ≡ b
some_inj a b h = ground arith

module _ (N : Number) where
  less-WeakOrder : WeakOrder N.less
  less-WeakOrder = record { asymm = N.less_asymm; cotrans = N.less_cotrans }

  -- `compareCandidates` is consistent: what the sort relies on.
  compare_candidates-WeakOrder :
      (code_units : ℕ → List ℕ) (seed : List ℕ) → WeakOrder (compare_candidates N code_units seed)
  unfolding compare_candidates
  compare_candidates-WeakOrder code_units seed =
      lex-WeakOrder (by_band N) _
        (key-WeakOrder (λ c. c.score.breakdown.primary_band) (λ x y. ltb_ℤ y x)
          (flip-WeakOrder ltb_ℤ ltb_ℤ-WeakOrder))
        (lex-WeakOrder (by_score N) _
          (key-WeakOrder (λ c. c.score.final_score) (λ x y. N.less y x)
            (flip-WeakOrder N.less less-WeakOrder))
          (lex-WeakOrder (by_min_primary N) _
            (key-WeakOrder (λ c. c.score.breakdown.min_primary_value) (λ x y. N.less y x)
              (flip-WeakOrder N.less less-WeakOrder))
            (lex-WeakOrder (by_idle N) _
              (key-WeakOrder (λ c. idle_or_max c.score.breakdown.idle_minutes) (λ x y. ltb y x)
                (flip-WeakOrder ltb ltb-WeakOrder))
              (key-WeakOrder (λ c. seeded_hash (seed ++ code_units c.expert_profile_id)) ltb
                ltb-WeakOrder))))

  number_from-All :
      (P : RankedCandidate N → Type 0) (index : ℕ) (cs : List (RankedCandidate N))
      → ((c : RankedCandidate N) (rank : ℕ) → P c → P (record c { rank = rank }))
      → All P cs
      → All P (number_from N index cs)
  unfolding number_from
  number_from-All P index [] h all = tt
  number_from-All P index (c ∷ rest) h (p, ps) =
      (h c (index + 1) p, number_from-All P (suc index) rest h ps)

  number_from-Sorted :
      (before : RankedCandidate N → RankedCandidate N → Bool)
      → ((x y : RankedCandidate N) (m n : ℕ)
          → before (record x { rank = m }) (record y { rank = n }) ≡ before x y)
      → (index : ℕ) (cs : List (RankedCandidate N)) → Sorted before cs
      → Sorted before (number_from N index cs)
  unfolding number_from
  number_from-Sorted before h index [] s = tt
  number_from-Sorted before h index (c ∷ rest) (a, s) = (
    number_from-All (λ y. before y (record c { rank = index + 1 }) ≡ false) (suc index) rest
        (λ d rank p. h d c rank (index + 1) ∙ sym (h d c d.rank (index + 1)) ∙ p)
        (In-All _ rest (λ d i. h d c d.rank (index + 1) ∙ All-In _ rest d a i)),
    number_from-Sorted before h (suc index) rest s,
  )

  Sorted-weaken :
      {A : Type 0} (p q : A → A → Bool) (xs : List A)
      → ((x y : A) → p x y ≡ false → q x y ≡ false)
      → Sorted p xs
      → Sorted q xs
  Sorted-weaken p q [] h s = tt
  Sorted-weaken p q (x ∷ xs) h (a, s) =
      (In-All _ xs (λ y i. h y x (All-In _ xs y a i)), Sorted-weaken p q xs h s)

  lex-first : {A : Type 0} (p q : A → A → Bool) (x y : A) → lex p q x y ≡ false → p x y ≡ false
  lex-first p q x y h = ground arith

  -- A result comes from the rule of the level asked for.
  pub rank_candidates-rule :
      (code_units : ℕ → List ℕ) (input : RankingInput N) (result : RankingResult N)
      → rank_candidates N code_units input ≡ some result
      → (rule : RelaxationRule) × (rule_for_level input.relaxation_level ≡ some rule)
        × (rank_under N code_units input rule ≡ result)
  unfolding rank_candidates
  rank_candidates-rule code_units input result h =
      let (rule, e, _) = rule_for_level_floor input.relaxation_level in
      (rule, e, some_inj (rank_under N code_units input rule) result (rw (e, rank_candidates) at h))

  compare_under :
      (code_units : ℕ → List ℕ) (seed : List ℕ) (x y : RankedCandidate N) (m n : ℕ)
      → compare_candidates N code_units seed (record x { rank = m }) (record y { rank = n })
        ≡ compare_candidates N code_units seed x y
  unfolding compare_candidates
  compare_under code_units seed x y m n = refl

  rank_under-Sorted :
      (code_units : ℕ → List ℕ) (input : RankingInput N) (rule : RelaxationRule)
      → Sorted
          (compare_candidates N code_units input.tie_break_seed)
          (rank_under N code_units input rule).ranked
  unfolding rank_under
  rank_under-Sorted code_units input rule =
      let before = compare_candidates N code_units input.tie_break_seed in
      let found = survivors N input rule input.candidates in
      number_from-Sorted before (compare_under code_units input.tie_break_seed) 0
        (take input.pool_size (sort_by before found))
        (take-Sorted before input.pool_size (sort_by before found) (
          sort_by-Sorted before (compare_candidates-WeakOrder code_units input.tie_break_seed)
            found))

  compare_candidates-band :
      (code_units : ℕ → List ℕ) (seed : List ℕ) (x y : RankedCandidate N)
      → compare_candidates N code_units seed x y ≡ false
      → by_band N x y ≡ false
  unfolding compare_candidates
  compare_candidates-band code_units seed x y h =
      lex-first (by_band N)
        (lex (by_score N) (lex (by_min_primary N) (lex (by_idle N) (by_hash N code_units seed)))) x
        y h

  -- The ranking is in order: nobody stands below one whom the comparator puts after them, and so no
  -- one stands below a candidate of a weaker band, whatever the scores are.
  pub rank_candidates-Sorted :
      (code_units : ℕ → List ℕ) (input : RankingInput N) (result : RankingResult N)
      → rank_candidates N code_units input ≡ some result
      → Sorted (compare_candidates N code_units input.tie_break_seed) result.ranked
        × Sorted (by_band N) result.ranked
  rank_candidates-Sorted code_units input result h =
      let (rule, e, r) = rank_candidates-rule code_units input result h in
      let sorted =
        subst
          (λ (s : RankingResult N).
            Sorted (compare_candidates N code_units input.tie_break_seed) s.ranked)
          r (rank_under-Sorted code_units input rule) in
      (
        sorted,
        Sorted-weaken (compare_candidates N code_units input.tie_break_seed) (by_band N)
            result.ranked (compare_candidates-band code_units input.tie_break_seed) sorted,
      )
