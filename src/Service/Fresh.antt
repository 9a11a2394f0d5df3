-- ===== src/Service/Fresh.antt =====
-- The attempts that `persistRun` and `createAdminAttempt` add: their ids are new, and none of them is
-- offered or confirming.
use salesforce_expert_suppor.Prelude.{
  ℕ, suc, ◌+◌, ◌<◌, ◌≤◌, ◌≡◌, refl, Bool, true, false, ◌||◌, none, List, [], ◌∷◌, ◌++◌, ◌==◌, arith,
  all, any, leb, ltb, length,
}
use salesforce_expert_suppor.Contracts.{AttemptStatus, AttemptStatus-discrete, AttemptOrigin}
use salesforce_expert_suppor.Dispatch.Attempts.{
  Attempt, has_status, offered_to, confirming_by, confirming_on,
}
use salesforce_expert_suppor.Dispatch.Counting.{count, distinct_ids}
use salesforce_expert_suppor.Service.Below.{Below}
use salesforce_expert_suppor.Service.World.{World}
use salesforce_expert_suppor.Service.Runs.{
  blank_attempt, ranked_attempts, excluded_attempts, persist_run, create_admin_attempt,
}
use salesforce_expert_suppor.Service.Valid.{IsValid, Total}

abbrev Above : ℕ → List Attempt → Type 0
Above n attempts = all (λ a. ltb n a.id) attempts ≡ true

abbrev is_untouched : Attempt → Bool
is_untouched a = has_status AttemptStatus.ranked a || has_status AttemptStatus.excluded a

count-append :
    (p : Attempt → Bool) (xs ys : List Attempt) → count p (xs ++ ys) ≡ count p xs + count p ys
count-append p [] ys = omega arith
count-append p (a ∷ xs) ys = ground (arith, count-append p xs ys)

count-untouched :
    (p : Attempt → Bool) (xs : List Attempt)
    → ((a : Attempt) → is_untouched a ≡ true → p a ≡ false)
    → all is_untouched xs ≡ true
    → count p xs ≡ 0
count-untouched p [] off h = refl
count-untouched p (a ∷ xs) off h = ground (arith, off a, count-untouched p xs off)

all-append :
    (p : Attempt → Bool) (xs ys : List Attempt)
    → all p xs ≡ true
    → all p ys ≡ true
    → all p (xs ++ ys) ≡ true
all-append p [] ys h k = k
all-append p (a ∷ xs) ys h k = ground (arith, all-append p xs ys)

Below-le : (m n : ℕ) (xs : List Attempt) → m ≤ n → Below m xs → Below n xs
Below-le m n [] h b = refl
Below-le m n (a ∷ xs) h b = ground (arith, Below-le m n xs h)

any-Above : (n id : ℕ) (ys : List Attempt) → id ≤ n → Above n ys → any (λ b. b.id == id) ys ≡ false
any-Above n id [] h k = refl
any-Above n id (a ∷ ys) h k = ground (arith, any-Above n id ys h)

any-append : (p : Attempt → Bool) (xs ys : List Attempt) → any p (xs ++ ys) ≡ (any p xs || any p ys)
any-append p [] ys = refl
any-append p (a ∷ xs) ys = ground (arith, any-append p xs ys)

distinct_ids-append :
    (n : ℕ) (xs ys : List Attempt)
    → Below n xs
    → Above n ys
    → distinct_ids xs ≡ true
    → distinct_ids ys ≡ true
    → distinct_ids (xs ++ ys) ≡ true
distinct_ids-append n [] ys b k d e = e
distinct_ids-append n (a ∷ xs) ys b k d e =
    ground (
      arith,
      any-append (λ c. c.id == a.id) xs ys,
      any-Above n a.id ys,
      distinct_ids-append n xs ys,
    )

-- New attempts of a run or of an administrator.
pub append-IsValid :
    (w v : World) (n : ℕ) (ys : List Attempt)
    → IsValid w
    → v.store.attempts ≡ w.store.attempts ++ ys
    → w.counter ≤ n
    → v.counter ≡ n
    → Above w.counter ys
    → Below n ys
    → distinct_ids ys ≡ true
    → all is_untouched ys ≡ true
    → IsValid v
unfolding AttemptStatus-discrete
append-IsValid w v n ys valid e le counter above below distinct fresh = record {
  exclusive = λ request expert.
      let (d, x, y, z) = valid.exclusive request expert in
      (
        rw e (distinct_ids-append w.counter w.store.attempts ys valid.below above d distinct),
        rw e (at_most (offered_to expert) x (λ a. ground arith)),
        rw e (at_most (confirming_on request) y (λ a. ground arith)),
        rw e (at_most (confirming_by expert) z (λ a. ground arith)),
      );
  below =
      rw (counter, e)
        (all-append (λ a. leb a.id n) w.store.attempts ys
          (Below-le w.counter n w.store.attempts le valid.below) below);
}
  where
    at_most :
        (p : Attempt → Bool)
        → count p w.store.attempts ≤ 1
        → ((a : Attempt) → is_untouched a ≡ true → p a ≡ false)
        → count p (w.store.attempts ++ ys) ≤ 1
    at_most p h off =
        omega (arith, count-append p w.store.attempts ys, count-untouched p ys off fresh, h)

module _ (run request : ℕ) where
  ranked-Above :
      (n id : ℕ) (rows : List (ℕ × ℕ)) → n < id → Above n (ranked_attempts id run request rows)
  unfolding ranked_attempts blank_attempt
  ranked-Above n id [] h = refl
  ranked-Above n id ((e, r) ∷ rows) h = ground (arith, ranked-Above n (suc id) rows)

  ranked-Below :
      (n id : ℕ) (rows : List (ℕ × ℕ))
      → id + length rows ≤ suc n
      → Below n (ranked_attempts id run request rows)
  unfolding ranked_attempts blank_attempt
  ranked-Below n id [] h = refl
  ranked-Below n id ((e, r) ∷ rows) h = ground (arith, ranked-Below n (suc id) rows)

  ranked-distinct_ids :
      (id : ℕ) (rows : List (ℕ × ℕ)) → distinct_ids (ranked_attempts id run request rows) ≡ true
  unfolding ranked_attempts blank_attempt
  ranked-distinct_ids id [] = refl
  ranked-distinct_ids id ((e, r) ∷ rows) = ground (
    arith,
    any-Above id id (ranked_attempts (suc id) run request rows),
    ranked-Above id (suc id) rows,
    ranked-distinct_ids (suc id) rows,
  )

  ranked_untouched :
      (id : ℕ) (rows : List (ℕ × ℕ)) → all is_untouched (ranked_attempts id run request rows) ≡ true
  unfolding ranked_attempts blank_attempt AttemptStatus-discrete
  ranked_untouched id [] = refl
  ranked_untouched id ((e, r) ∷ rows) = ground (arith, ranked_untouched (suc id) rows)

  excluded-Above :
      (n id : ℕ) (rows : List ℕ) → n < id → Above n (excluded_attempts id run request rows)
  unfolding excluded_attempts blank_attempt
  excluded-Above n id [] h = refl
  excluded-Above n id (e ∷ rows) h = ground (arith, excluded-Above n (suc id) rows)

  excluded-Below :
      (n id : ℕ) (rows : List ℕ)
      → id + length rows ≤ suc n
      → Below n (excluded_attempts id run request rows)
  unfolding excluded_attempts blank_attempt
  excluded-Below n id [] h = refl
  excluded-Below n id (e ∷ rows) h = ground (arith, excluded-Below n (suc id) rows)

  excluded-distinct_ids :
      (id : ℕ) (rows : List ℕ) → distinct_ids (excluded_attempts id run request rows) ≡ true
  unfolding excluded_attempts blank_attempt
  excluded-distinct_ids id [] = refl
  excluded-distinct_ids id (e ∷ rows) = ground (
    arith,
    any-Above id id (excluded_attempts (suc id) run request rows),
    excluded-Above id (suc id) rows,
    excluded-distinct_ids (suc id) rows,
  )

  excluded_untouched :
      (id : ℕ) (rows : List ℕ) → all is_untouched (excluded_attempts id run request rows) ≡ true
  unfolding excluded_attempts blank_attempt AttemptStatus-discrete
  excluded_untouched id [] = refl
  excluded_untouched id (e ∷ rows) = ground (arith, excluded_untouched (suc id) rows)

  pub Total-create_admin_attempt :
      (expert : ℕ) (origin : AttemptOrigin) → Total (create_admin_attempt run request expert origin)
  unfolding Total create_admin_attempt blank_attempt AttemptStatus-discrete
  Total-create_admin_attempt expert origin w valid = (
    append-IsValid w (create_admin_attempt run request expert origin w).1 (suc w.counter)
        (blank_attempt (suc w.counter) run request expert origin none AttemptStatus.ranked ∷ [])
        valid refl (omega arith) refl (ground arith) (ground arith) refl refl,
    refl,
  )

pub Total-persist_run :
    (request round level pool_size now : ℕ) (ranked : List (ℕ × ℕ)) (excluded : List ℕ)
    → Total (persist_run request round level pool_size now ranked excluded)
unfolding Total persist_run
Total-persist_run request round level pool_size now ranked excluded w valid =
    let run = suc w.counter in
    let middle = run + length ranked in
    let last = middle + length excluded in
    let first = ranked_attempts (suc run) run request ranked in
    let second = excluded_attempts (suc run + length ranked) run request excluded in
    (
      append-IsValid w (persist_run request round level pool_size now ranked excluded w).1 last
          (first ++ second) valid refl (omega arith) refl
          (all-append (λ a. ltb w.counter a.id) first second
            (ranked-Above run request w.counter (suc run) ranked (omega arith))
            (excluded-Above run request w.counter (suc run + length ranked) excluded (omega arith)))
          (all-append (λ a. leb a.id last) first second
            (ranked-Below run request last (suc run) ranked (omega arith))
            (excluded-Below run request last (suc run + length ranked) excluded (omega arith)))
          (distinct_ids-append middle first second
            (ranked-Below run request middle (suc run) ranked (omega arith))
            (excluded-Above run request middle (suc run + length ranked) excluded (omega arith))
            (ranked-distinct_ids run request (suc run) ranked)
            (excluded-distinct_ids run request (suc run + length ranked) excluded))
          (all-append is_untouched first second (ranked_untouched run request (suc run) ranked)
            (excluded_untouched run request (suc run + length ranked) excluded)),
      refl,
    )
