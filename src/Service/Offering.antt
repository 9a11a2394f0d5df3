-- ===== src/Service/Offering.antt =====
-- The loop of `tryOfferFromRun`: it ends within as many turns as the run has ranked attempts, plus one.
use salesforce_expert_suppor.Prelude.{
  ℕ, zero, suc, ◌<◌, ◌≡◌, refl, sym, Bool, true, false, Option, none, some, List, [], ◌∷◌, ◌==◌,
  arith, In, Option-cases, inl, inr, ==_iff, select, select-In, sort_by, In-sort_by, find_first-In,
  find_first-none,
}
use salesforce_expert_suppor.Contracts.{AttemptStatus-discrete}
use salesforce_expert_suppor.Dispatch.Attempts.{Attempt, patch}
use salesforce_expert_suppor.Dispatch.Store.{
  Store, open_offer, find_attempt, may_close, close_withdrawn, closed_attempt,
}
use salesforce_expert_suppor.Dispatch.Offers.{close_offer-attempts}
use salesforce_expert_suppor.Dispatch.Counting.{count, distinct_ids, distinct_ids-In}
use salesforce_expert_suppor.Dispatch.Steps.{Step-Exclusive, offer}
use salesforce_expert_suppor.Matching.Number.{Number}
use salesforce_expert_suppor.Service.Below.{Step-Below}
use salesforce_expert_suppor.Service.World.{World, Request}
use salesforce_expert_suppor.Service.Setup.{Deps}
use salesforce_expert_suppor.Service.Monad.{
  Action, Result, ok, pure, reads, on_store, ◌>>=◌, on_option,
}
use salesforce_expert_suppor.Service.Runs.{
  next_ranked_in, next_ranked_attempt, is_next, by_first_rank, first_attempt,
}
use salesforce_expert_suppor.Service.Dispatch.{
  try_offers, try_open, withdraw, announce, opened_attempt, is_open_in, schedule_offer_timeout,
  offer_deadline,
}
use salesforce_expert_suppor.Service.Valid.{IsValid, Total, Ended, Ended-bind, total}

pub find_attempt-In :
    (xs : List Attempt) (a : Attempt)
    → distinct_ids xs ≡ true
    → In a xs
    → find_attempt a.id xs ≡ some a
find_attempt-In xs a d i = elim (Option-cases (find_attempt a.id xs)) [
  | inl n ↦ ground (arith, find_first-none (λ b. b.id == a.id) xs a n i, ==_iff a.id a.id)
  | inr (b, f) ↦
      let (j, e) = find_first-In (λ c. c.id == a.id) xs b f in
      let same_one = distinct_ids-In xs b a d j i ((==_iff b.id a.id).0 e) in cc
]

next_ranked_in-In :
    (run : ℕ) (xs : List Attempt) (a : Attempt)
    → next_ranked_in run xs ≡ some a
    → In a xs × (is_next xs run a ≡ true)
unfolding next_ranked_in
next_ranked_in-In run xs a h = select-In (is_next xs run) xs a (
    (In-sort_by by_first_rank a (select (is_next xs run) xs)).0
      (first-In (sort_by by_first_rank (select (is_next xs run) xs)) h))
  where
    first-In : (ys : List Attempt) → first_attempt ys ≡ some a → In a ys
    first-In [] e = ground arith
    first-In (y ∷ ys) e = ground arith

-- The offer of an attempt of the store.
pub open_offer-IsValid :
    (a : Attempt) (now expires_at : ℕ) (w : World)
    → IsValid w
    → In a w.store.attempts
    → IsValid (record w { store = (open_offer a.id a.expert_profile_id now expires_at w.store).1 })
open_offer-IsValid a now expires_at w valid i =
    let found = find_attempt-In w.store.attempts a (valid.exclusive 0 0).0 i in
    let s = (open_offer a.id a.expert_profile_id now expires_at w.store).1 in
    let step = offer a.id now expires_at a w.store found in
    record {
      exclusive = λ request expert.
          Step-Exclusive request expert w.store s step (valid.exclusive request expert);
      below = Step-Below w.counter w.store s step valid.below;
    }

-- A change of one attempt that takes it out of a test lowers the number of those that pass.
count-patch-lt :
    (p : Attempt → Bool) (id : ℕ) (change : Attempt → Attempt) (xs : List Attempt) (a : Attempt)
    → find_attempt id xs ≡ some a
    → p a ≡ true
    → ((b : Attempt) → p (change b) ≡ false)
    → suc (count p (patch id change xs)) ≡ count p xs
unfolding patch
count-patch-lt p id change [] a f y n = ground arith
count-patch-lt p id change (x ∷ xs) a f y n = ground (arith, n x, count-patch-lt p id change xs a)

next-is_open :
    (xs : List Attempt) (run : ℕ) (a : Attempt) → is_next xs run a ≡ true → is_open_in run a ≡ true
next-is_open xs run a h = ground arith

pub ok_eq : {A : Type 0} {a b : A} → Result.ok a ≡ ok b → a ≡ b
ok_eq h = ground arith

-- An offer that is not made changes nothing.
open_offer-none :
    (a : Attempt) (now expires_at : ℕ) (s : Store)
    → opened_attempt (open_offer a.id a.expert_profile_id now expires_at s).0 ≡ none
    → (open_offer a.id a.expert_profile_id now expires_at s).1 ≡ s
unfolding open_offer
open_offer-none a now expires_at s h = ground arith

pub schedule_offer_timeout-Total : (a : Attempt) (now : ℕ) → Total (schedule_offer_timeout a now)
unfolding schedule_offer_timeout
schedule_offer_timeout-Total a now = search total

announce-Total : (request : Request) (now : ℕ) (a : Attempt) → Total (announce request now a)
unfolding announce
announce-Total request now a = search (total, schedule_offer_timeout-Total) depth 40

withdraw-Total : (a : Attempt) (now : ℕ) → Total (withdraw a now)
unfolding withdraw
withdraw-Total a now = search total

may_withdraw :
    (run : ℕ) (a : Attempt) → is_open_in run a ≡ true → may_close close_withdrawn a ≡ true
may_withdraw run a h = ground arith

withdrawn_off :
    (run now : ℕ) (b : Attempt) → is_open_in run (closed_attempt close_withdrawn now none b) ≡ false
unfolding AttemptStatus-discrete
withdrawn_off run now b = ground arith

-- Withdrawing an attempt that is open in the run leaves one less there.
withdraw-count :
    (run : ℕ) (a : Attempt) (now : ℕ) (w : World)
    → find_attempt a.id w.store.attempts ≡ some a
    → is_open_in run a ≡ true
    → suc (count (is_open_in run) (withdraw a now w).1.store.attempts)
      ≡ count (is_open_in run) w.store.attempts
unfolding withdraw on_store
withdraw-count run a now w f is_open =
    rw
      (close_offer-attempts a.id a.expert_profile_id close_withdrawn now none false none a w.store f
        (may_withdraw run a is_open))
      (count-patch-lt (is_open_in run) a.id (closed_attempt close_withdrawn now none)
        w.store.attempts a f is_open (withdrawn_off run now))

withdraw_elsewhere-count :
    (run : ℕ) (a : Attempt) (now : ℕ) (u : World) (s : Store)
    → u.store ≡ s
    → find_attempt a.id s.attempts ≡ some a
    → is_open_in run a ≡ true
    → suc (count (is_open_in run) (withdraw a now u).1.store.attempts)
      ≡ count (is_open_in run) s.attempts
withdraw_elsewhere-count run a now u s e f is_open =
    rw (sym e) (withdraw-count run a now u (rw e f) is_open)

module _ (N : Number) (D : Deps N) (request : Request) (run now : ℕ) where
  module _ (fuel : ℕ)
      (again : (w : World)
        → IsValid w
        → count (is_open_in run) w.store.attempts < fuel
        → Ended (try_offers N D fuel request run now w))
      (w : World) (valid : IsValid w)
      (enough : count (is_open_in run) w.store.attempts < suc fuel) where
    after_open : Attempt → Option Attempt → Action (Option Attempt)
    after_open a taken =
        on_option taken (withdraw a now >>= λ _. try_offers N D fuel request run now)
          (announce request now)

    after_next : Option Attempt → Action (Option Attempt)
    after_next next =
        on_option next (pure none)
          (λ a. try_open a now (offer_deadline N D request now) >>= after_open a)

    abbrev opened_world : Attempt → World
    opened_world a = (try_open a now (offer_deadline N D request now) w).1

    abbrev answer : Attempt → Option Attempt
    answer a =
        opened_attempt
          (open_offer a.id a.expert_profile_id now (offer_deadline N D request now) w.store).0

    refused :
        (a : Attempt)
        → In a w.store.attempts
        → is_next w.store.attempts run a ≡ true
        → answer a ≡ none
        → IsValid (opened_world a)
        → Ended ((withdraw a now >>= λ _. try_offers N D fuel request run now) (opened_world a))
    unfolding Total try_open on_store
    refused a i n e v =
        let same_store = open_offer-none a now (offer_deadline N D request now) w.store e in
        let found = find_attempt-In w.store.attempts a (valid.exclusive 0 0).0 i in
        let less =
          withdraw_elsewhere-count run a now (opened_world a) w.store same_store found
            (next-is_open w.store.attempts run a n) in
        Ended-bind (withdraw a now) (λ _. try_offers N D fuel request run now) (opened_world a)
          (withdraw-Total a now (opened_world a) v)
          (λ _ _ u. again (withdraw a now (opened_world a)).1 u (fewer less))
      where
        fewer : {m : ℕ} → suc m ≡ count (is_open_in run) w.store.attempts → m < fuel
        fewer e = omega (arith, enough, e)

    answered :
        (a : Attempt) (taken : Option Attempt)
        → In a w.store.attempts
        → is_next w.store.attempts run a ≡ true
        → answer a ≡ taken
        → IsValid (opened_world a)
        → Ended (after_open a taken (opened_world a))
    unfolding Total after_open on_option
    answered a none i n e v = refused a i n e v
    answered a (some b) i n e v = announce-Total request now b (opened_world a) v

    turn : (o : Option Attempt) → next_ranked_in run w.store.attempts ≡ o → Ended (after_next o w)
    unfolding after_next on_option pure try_open on_store
    turn none e = (valid, refl)
    turn (some a) e =
        let (i, n) = next_ranked_in-In run w.store.attempts a e in
        Ended-bind (try_open a now (offer_deadline N D request now)) (after_open a) w
          (open_offer-IsValid a now (offer_deadline N D request now) w valid i, refl)
          (λ taken f v. answered a taken i n (ok_eq f) v)

  pub try_offers_fuel :
      (fuel : ℕ) (w : World)
      → IsValid w
      → count (is_open_in run) w.store.attempts < fuel
      → Ended (try_offers N D fuel request run now w)
  unfolding try_offers next_ranked_attempt reads after_next after_open
  try_offers_fuel zero w valid enough = absurd (omega arith)
  try_offers_fuel (suc fuel) w valid enough =
      let again = try_offers_fuel fuel in
      Ended-bind (next_ranked_attempt run) (after_next fuel again w valid enough) w (valid, refl)
        (λ o e v. turn fuel again w valid enough o (ok_eq e))
