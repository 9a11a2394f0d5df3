-- ===== src/Matching/Choice.antt =====
-- What `selectShortlist` and `shouldCloseInterestWindow` of matching/shortlist.ts promise.
use salesforce_expert_suppor.Prelude.{
  ℕ, includes, none, ◌∙◌, zero, suc, ◌≤◌, ◌≡◌, refl, sym, ap, ◌↔◌, ◌⊎◌, inl, inr, Bool, true, false,
  Option, some, List, [], ◌∷◌, ◌++◌, arith, length, min, take, drop, select, select-In, In, All-In,
  In-All, Sorted, append-In, includes_iff, ℕ_discrete, take-append-drop, length-take, take-In,
  Bool-cases,
}
use salesforce_expert_suppor.Matching.Number.{Number}
use salesforce_expert_suppor.Matching.Rank.{
  RankedCandidate, RankingInput, RankingResult, rank_candidates, compare_candidates, by_band,
}
use salesforce_expert_suppor.Matching.Order.{rank_candidates-Sorted}
use salesforce_expert_suppor.Matching.Shortlist.{
  select_shortlist, raised_a_hand, or_default, shortlist_size, should_close_interest_window,
  interest_target,
}

module _ {A : Type 0} (before : A → A → Bool) where
  Sorted-select : (p : A → Bool) (xs : List A) → Sorted before xs → Sorted before (select p xs)
  Sorted-select p [] s = tt
  Sorted-select p (x ∷ xs) (first, s) = elim (Bool-cases (p x)) [
    | inl e ↦ rw e (
      In-All _ (select p xs) (λ y i. All-In _ xs y first (select-In p xs y i).0),
      Sorted-select p xs s,
    )
    | inr e ↦ rw e (Sorted-select p xs s)
  ]

  Sorted-append :
      (xs ys : List A) (a b : A) → Sorted before (xs ++ ys) → In a xs → In b ys → before b a ≡ false
  Sorted-append [] ys a b s i j = absurd i
  Sorted-append (x ∷ xs) ys a b (first, s) (inl e) j =
      rw (sym e) (All-In _ (xs ++ ys) b first ((append-In xs ys b).1 (inr j)))
  Sorted-append (x ∷ xs) ys a b (first, s) (inr i) j = Sorted-append xs ys a b s i j

held_back :
    {A : Type 0} (before : A → A → Bool) (n : ℕ) (xs : List A) (p : A → Bool) (a b : A)
    → Sorted before xs
    → In a (take n (select p xs))
    → In b (drop n (select p xs))
    → before b a ≡ false
held_back before n xs p a b s i j =
    Sorted-append before (take n (select p xs)) (drop n (select p xs)) a b
      (rw (take-append-drop n (select p xs)) (Sorted-select before p xs s)) i j

take_full : {A : Type 0} (n : ℕ) (xs : List A) (a : A) → In a (drop n xs) → length (take n xs) ≡ n
take_full zero xs a i = refl
take_full (suc n) [] a i = absurd i
take_full (suc n) (x ∷ xs) a i = ap suc (take_full n xs a i)

-- The size that is asked for, or three.
abbrev pub asked_size : Option ℕ → ℕ
asked_size none = 3
asked_size (some n) = n

asked_size_lem : (size : Option ℕ) → or_default shortlist_size size ≡ asked_size size
asked_size_lem none = refl
asked_size_lem (some n) = refl

module _ (N : Number) where
  -- The ranked whose ids are among the interested, in ranking order.
  abbrev pub interested_of : List (RankedCandidate N) → List ℕ → List (RankedCandidate N)
  interested_of ranked interested =
      select (λ c. includes ℕ_discrete c.expert_profile_id interested) ranked

  -- The shortlist is as long as the size asked for, three if none is, or as the ranked who raised a
  -- hand are many if these are fewer; and followed by the reserves it is the ranking without the
  -- others, in ranking order.
  pub select_shortlist-partition :
      (ranked : List (RankedCandidate N)) (interested : List ℕ) (size : Option ℕ)
      → let decision = select_shortlist N ranked interested size in
        (length decision.shortlisted
          ≡ min (asked_size size) (length (interested_of ranked interested)))
        × (decision.shortlisted ++ decision.reserves ≡ interested_of ranked interested)
  unfolding select_shortlist
  select_shortlist-partition ranked interested size =
      let eligible = interested_of ranked interested in
      (
        length-take (or_default shortlist_size size) eligible
            ∙ ap (λ n. min n (length eligible)) (asked_size_lem size),
        take-append-drop (or_default shortlist_size size) eligible,
      )

  -- Raising a hand cannot get an expert past the ranking, nor the ranking one who raised none: whoever
  -- is shortlisted is in both.
  pub select_shortlist-In :
      (ranked : List (RankedCandidate N)) (interested : List ℕ) (size : Option ℕ)
      (c : RankedCandidate N)
      → In c (select_shortlist N ranked interested size).shortlisted
      → In c ranked × In c.expert_profile_id interested
  unfolding select_shortlist
  select_shortlist-In ranked interested size c h =
      let eligible = select (raised_a_hand N interested) ranked in
      let (i, r) =
        select-In (raised_a_hand N interested) ranked c
          (take-In (or_default shortlist_size size) eligible c h) in
      (i, (includes_iff ℕ_discrete c.expert_profile_id interested).0 r)

  -- The best of those who raised a hand are shown: when there is a reserve, the shortlist is as long
  -- as the size asked for, three if none is, and whoever is on it was ranked and raised a hand, and is not put after the one in
  -- reserve, neither by the ranking's comparator nor by the band alone.
  pub select_shortlist-outranks :
      (code_units : ℕ → List ℕ) (input : RankingInput N) (result : RankingResult N)
      (interested : List ℕ) (size : Option ℕ) (c r : RankedCandidate N)
      → rank_candidates N code_units input ≡ some result
      → In c (select_shortlist N result.ranked interested size).shortlisted
      → In r (select_shortlist N result.ranked interested size).reserves
      → (length (select_shortlist N result.ranked interested size).shortlisted ≡ asked_size size)
        × In c result.ranked
        × In c.expert_profile_id interested
        × (compare_candidates N code_units input.tie_break_seed r c ≡ false)
        × (by_band N r c ≡ false)
  unfolding select_shortlist
  select_shortlist-outranks code_units input result interested size c r h i j =
      let eligible = select (raised_a_hand N interested) result.ranked in
      let n = or_default shortlist_size size in
      let (sorted, banded) = rank_candidates-Sorted N code_units input result h in
      let (ranked, raised) = select_shortlist-In result.ranked interested size c i in
      (
        take_full n eligible r j,
        ranked,
        raised,
        held_back (compare_candidates N code_units input.tie_break_seed) n result.ranked
            (raised_a_hand N interested) c r sorted i j,
        held_back (by_band N) n result.ranked (raised_a_hand N interested) c r banded i j,
      )

-- The interest window closes once enough hands are up, or once its time is over and a hand is up; and
-- with no hand up it closes exactly if the target is 0.
pub should_close_interest_window_iff :
    (count elapsed window : ℕ) (target : Option ℕ)
    → ((should_close_interest_window count elapsed window target ≡ true)
        ↔ ((or_default interest_target target ≤ count) ⊎ ((window ≤ elapsed) × (1 ≤ count))))
      × ((should_close_interest_window 0 elapsed window target ≡ true)
          ↔ (or_default interest_target target ≡ 0))
unfolding should_close_interest_window
should_close_interest_window_iff count elapsed window target = ground arith
