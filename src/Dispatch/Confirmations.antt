-- ===== src/Dispatch/Confirmations.antt =====
-- Exclusive confirmations: `startConfirmation` of matching/in-memory-matching-world.ts, and the
-- operations that never start one or an offer.
use salesforce_expert_suppor.Prelude.{
  ℕ, ◌≤◌, ◌≡◌, ◌∙◌, ap, inl, inr, Bool, true, false, not, ◌&&◌, ◌||◌, List, arith, In, ◌==◌, ==_iff,
  find_first, find_first-In, Bool-cases, Option-cases, any, any→In, In→any,
}
use salesforce_expert_suppor.Contracts.{AttemptStatus, AttemptStatus-discrete}
use salesforce_expert_suppor.Dispatch.Attempts.{
  Attempt, has_status, patch, confirming_by, confirming_on,
}
use salesforce_expert_suppor.Dispatch.Store.{Store}
use salesforce_expert_suppor.Dispatch.Pool.{start_confirmation, is_contested, confirming_until}
use salesforce_expert_suppor.Dispatch.Counting.{
  count, distinct_ids, count-patch-le, count-patch-drop, count-none, distinct_ids-In,
}

-- The attempt that waits is not itself confirming, so that a test which leaves it out counts all.
no_other-none :
    (key : Attempt → Bool) (a : Attempt) (xs : List Attempt)
    → distinct_ids xs ≡ true
    → In a xs
    → has_status AttemptStatus.shortlisted a ≡ true
    → any (λ b. (key b && has_status AttemptStatus.confirming b) && not (b.id == a.id)) xs ≡ false
    → any (λ b. key b && has_status AttemptStatus.confirming b) xs ≡ false
unfolding AttemptStatus-discrete
no_other-none key a xs distinct i waits free =
    elim (Bool-cases (any (λ b. key b && has_status AttemptStatus.confirming b) xs)) [
      | inr e ↦ e
      | inl e ↦
          let (b, j, t) = any→In (λ b. key b && has_status AttemptStatus.confirming b) xs e in
          elim (Bool-cases (b.id == a.id)) [
            | inl s ↦
                let meets = distinct_ids-In xs b a distinct j i ((==_iff b.id a.id).0 s) in
                let status = ap (λ (c : Attempt). c.status) meets in absurd (ground (arith, status))
            | inr s ↦
                let busy =
                  In→any
                    (λ b. (key b && has_status AttemptStatus.confirming b) && not (b.id == a.id)) xs
                    b j (ground arith) in
                ground (arith, busy)
          ]
    ]

-- Starting the confirmation of an attempt, where nobody with its key is confirming.
count-confirming_until :
    (key : ℕ → Attempt → Bool) (of : Attempt → ℕ) (expires_at now k : ℕ) (a : Attempt)
    (xs : List Attempt)
    → ((m : ℕ) (b : Attempt) → key m (confirming_until expires_at now b) ≡ (of b == m))
    → distinct_ids xs ≡ true
    → In a xs
    → any (key (of a)) xs ≡ false
    → count (key k) xs ≤ 1
    → count (key k) (patch a.id (confirming_until expires_at now) xs) ≤ 1
count-confirming_until key of expires_at now k a xs reads distinct i free one =
    elim (Bool-cases (of a == k)) [
      | inl e ↦ omega (
        arith,
        count-patch-le (key k) a.id (confirming_until expires_at now) xs,
        ap (λ m. count (key m) xs) ((==_iff (of a) k).0 e),
        count-none (key (of a)) xs free,
      )
      | inr e ↦
          let below = count-patch-drop (key k) a.id (confirming_until expires_at now) xs (λ b j s.
            reads k b ∙ ap (λ c. of c == k) (distinct_ids-In xs b a distinct j i s) ∙ e) in
          omega (arith, below)
    ]

reads_on :
    (expires_at now m : ℕ) (b : Attempt)
    → confirming_on m (confirming_until expires_at now b) ≡ (b.support_request_id == m)
unfolding AttemptStatus-discrete
reads_on expires_at now m b = ground arith

reads_by :
    (expires_at now m : ℕ) (b : Attempt)
    → confirming_by m (confirming_until expires_at now b) ≡ (b.expert_profile_id == m)
unfolding AttemptStatus-discrete
reads_by expires_at now m b = ground arith

-- A confirmation is exclusive on both sides: if no request waits for two confirmations and no expert
-- is asked for two, that is so after `startConfirmation`, whatever it answers.
pub start_confirmation_exclusive :
    (attempt_id expires_at now request expert : ℕ) (store : Store)
    → distinct_ids store.attempts ≡ true
    → count (confirming_on request) store.attempts ≤ 1
    → count (confirming_by expert) store.attempts ≤ 1
    → let after = (start_confirmation attempt_id expires_at now store).1.attempts in
      (count (confirming_on request) after ≤ 1) × (count (confirming_by expert) after ≤ 1)
unfolding start_confirmation
start_confirmation_exclusive attempt_id expires_at now request expert store distinct on by =
    elim (Option-cases (
      find_first (λ a. (a.id == attempt_id) && has_status AttemptStatus.shortlisted a)
        store.attempts)) [
          | inl f ↦ rw (f, start_confirmation) (on, by)
          | inr (a, f) ↦ elim (Bool-cases (is_contested a store.attempts)) [
            | inl c ↦ rw (f, c, start_confirmation) (on, by)
            | inr c ↦
                let (i, t) =
                  find_first-In
                    (λ a. (a.id == attempt_id) && has_status AttemptStatus.shortlisted a)
                    store.attempts a f in
                let waits = and_right (a.id == attempt_id) _ t in
                let (free_on, free_by) = neither _ _ c in
                rw (f, c, start_confirmation)
                  (
                    count-confirming_until confirming_on (λ b. b.support_request_id) expires_at now
                        request a store.attempts (reads_on expires_at now) distinct i
                        (no_other-none (λ b. b.support_request_id == a.support_request_id) a
                          store.attempts distinct i waits free_on)
                        on,
                    count-confirming_until confirming_by (λ b. b.expert_profile_id) expires_at now
                        expert a store.attempts (reads_by expires_at now) distinct i
                        (no_other-none (λ b. b.expert_profile_id == a.expert_profile_id) a
                          store.attempts distinct i waits free_by)
                        by,
                  )
          ]
        ]
  where
    and_right : (x y : Bool) → (x && y) ≡ true → y ≡ true
    and_right x y h = ground arith

    neither : (x y : Bool) → (x || y) ≡ false → (x ≡ false) × (y ≡ false)
    neither x y h = ground arith
