-- ===== src/Service/Valid.antt =====
-- The worlds that the service keeps: ids are unique and below the counter, and no expert holds two
-- offers, no expert and no request two confirmations. Methods that keep them and never run out of
-- fuel, with one rule for each way to build a method, which `search` puts together.
use salesforce_expert_suppor.Prelude.{ℕ, ◌≡◌, refl, Bool, true, false, Option, none, some, arith}
use salesforce_expert_suppor.Contracts.{RequestState}
use salesforce_expert_suppor.Requests.Machine.{
  TransitionActor, Asserted, legal, illegal, assert_transition,
}
use salesforce_expert_suppor.Dispatch.Store.{Store}
use salesforce_expert_suppor.Dispatch.Steps.{
  Step, Exclusive, Step-Exclusive, interest, shortlist, start, settle, close, supersede,
}
use salesforce_expert_suppor.Service.Below.{Below, Step-Below}
use salesforce_expert_suppor.Service.World.{Request, World, Job, find_in}
use salesforce_expert_suppor.Service.Monad.{
  Action, Result, ok, err, Error, out_of_fuel, pure, raise, reads, on_store, branch, ◌>>=◌,
  on_option, enqueue, raise_if, or_raise, and_then,
}
use salesforce_expert_suppor.Service.Requests.{
  find_request, require_request, apply_found, apply_transition, assign_expert, asserted,
  check_transition, transition,
}
use salesforce_expert_suppor.Service.Runs.{complete_run}

pub record IsValid (w : World) : Type 0 where
  pub exclusive : (request expert : ℕ) → Exclusive request expert w.store
  pub below : Below w.counter w.store.attempts

abbrev pub is_out_of_fuel : Error → Bool
is_out_of_fuel out_of_fuel = true
is_out_of_fuel _ = false

abbrev pub ran_out : {A : Type 0} → Result A → Bool
ran_out (ok a) = false
ran_out (err e) = is_out_of_fuel e

-- What a call that ended so has kept.
abbrev pub Ended : {A : Type 0} → Result A × World → Type 0
Ended (r, w) = IsValid w × (ran_out r ≡ false)

unfoldable pub Total : {A : Type 0} → Action A → Type 0
Total m = (w : World) → IsValid w → Ended (m w)

pub Total-quiet :
    {A : Type 0} (m : Action A)
    → ((w : World) → (m w).1.store ≡ w.store)
    → ((w : World) → (m w).1.counter ≡ w.counter)
    → ((w : World) → ran_out (m w).0 ≡ false)
    → Total m
unfolding Total
Total-quiet m s c r w valid = (
  record {
    exclusive = λ request expert. rw (s w) (valid.exclusive request expert);
    below = rw (s w, c w) valid.below;
  },
  r w,
)

pub Ended-bind :
    {A B : Type 0} (m : Action A) (f : A → Action B) (w : World)
    → Ended (m w)
    → ((a : A) → (m w).0 ≡ ok a → IsValid (m w).1 → Ended (f a (m w).1))
    → Ended ((m >>= f) w)
unfolding ◌>>=◌
Ended-bind {A = A} m f w h k = after (m w).0 (m w).1 h k
  where
    after :
        (r : Result A) (v : World)
        → IsValid v × (ran_out r ≡ false)
        → ((a : A) → r ≡ ok a → IsValid v → Ended (f a v))
        → Ended (and_then r v f)
    after (err e) v h k = h
    after (ok a) v (valid, _) k = k a refl valid

pub Total-bind :
    {A B : Type 0} (m : Action A) (f : A → Action B)
    → Total m
    → ((a : A) → Total (f a))
    → Total (m >>= f)
unfolding Total
Total-bind m f h k w valid = Ended-bind m f w (h w valid) (λ a _ v. k a (m w).1 v)

pub Total-branch :
    {A : Type 0} (c : Bool) (m n : Action A)
    → (c ≡ true → Total m)
    → (c ≡ false → Total n)
    → Total (branch c m n)
unfolding Total branch
Total-branch true m n h k = h refl
Total-branch false m n h k = k refl

pub Total-on_option :
    {A B : Type 0} (o : Option A) (m : Action B) (f : A → Action B)
    → Total m
    → ((a : A) → Total (f a))
    → Total (on_option o m f)
unfolding on_option
Total-on_option none m f h k = h
Total-on_option (some a) m f h k = k a

pub Total-pure : {A : Type 0} (a : A) → Total (pure a)
unfolding pure
Total-pure a = Total-quiet (pure a) (λ w. refl) (λ w. refl) (λ w. refl)

pub Total-raise : (A : Type 0) (e : Error) → is_out_of_fuel e ≡ false → Total (raise {A = A} e)
unfolding raise
Total-raise A e n = Total-quiet (raise e) (λ w. refl) (λ w. refl) (λ w. n)

pub Total-reads : {A : Type 0} (f : World → A) → Total (reads f)
unfolding reads
Total-reads f = Total-quiet (reads f) (λ w. refl) (λ w. refl) (λ w. refl)

pub Total-enqueue : (job : Job) → Total (enqueue job)
unfolding enqueue
Total-enqueue job = Total-quiet (enqueue job) (λ w. refl) (λ w. refl) (λ w. refl)

pub Total-raise_if : (c : Bool) (e : Error) → is_out_of_fuel e ≡ false → Total (raise_if c e)
unfolding raise_if
Total-raise_if true e n = Total-quiet (raise_if true e) (λ w. refl) (λ w. refl) (λ w. n)
Total-raise_if false e n = Total-quiet (raise_if false e) (λ w. refl) (λ w. refl) (λ w. refl)

pub Total-or_raise :
    {A : Type 0} (o : Option A) (e : Error) → is_out_of_fuel e ≡ false → Total (or_raise o e)
unfolding or_raise
Total-or_raise none e n = Total-quiet (or_raise none e) (λ w. refl) (λ w. refl) (λ w. n)
Total-or_raise (some a) e n = Total-quiet (or_raise (some a) e) (λ w. refl) (λ w. refl) (λ w. refl)

pub Total-find_request : (id : ℕ) → Total (find_request id)
unfolding find_request
Total-find_request id = Total-reads (λ w. find_in id w.requests)

pub Total-require_request : (id : ℕ) → Total (require_request id)
unfolding require_request
Total-require_request id =
    Total-bind (find_request id) (λ o. or_raise o Error.not_found) (Total-find_request id)
      (λ o. Total-or_raise o Error.not_found refl)

pub Total-assign_expert : (id expert : ℕ) → Total (assign_expert id expert)
unfolding assign_expert
Total-assign_expert id expert =
    Total-quiet (assign_expert id expert) (λ w. refl) (λ w. refl) (λ w. refl)

pub Total-complete_run : (run now : ℕ) → Total (complete_run run now)
unfolding complete_run
Total-complete_run run now = Total-quiet (complete_run run now) (λ w. refl) (λ w. refl) (λ w. refl)

-- The store's own operations, by what is known of their steps.
pub Total-on_store :
    {A : Type 0} (f : Store → A × Store) → ((s : Store) → Step s (f s).1) → Total (on_store f)
unfolding Total on_store
Total-on_store f step w valid = (
  record {
    exclusive = λ request expert.
        Step-Exclusive request expert w.store (f w.store).1 (step w.store)
          (valid.exclusive request expert);
    below = Step-Below w.counter w.store (f w.store).1 (step w.store) valid.below;
  },
  refl,
)

apply_transition-Total :
    (id : ℕ) (to : RequestState) (expected : ℕ) → Total (apply_transition id to expected)
unfolding apply_transition apply_found
apply_transition-Total id to expected =
    Total-quiet (apply_transition id to expected) (λ w. stays w (find_in id w.requests))
      (λ w. counts w (find_in id w.requests)) (λ w. ends w (find_in id w.requests))
  where
    stays : (w : World) (o : Option Request) → (apply_found id to expected o w).1.store ≡ w.store
    stays w o = ground arith

    counts :
        (w : World) (o : Option Request) → (apply_found id to expected o w).1.counter ≡ w.counter
    counts w o = ground arith

    ends : (w : World) (o : Option Request) → ran_out (apply_found id to expected o w).0 ≡ false
    ends w o = ground arith

asserted-Total : (a : Asserted) → Total (asserted a)
unfolding asserted
asserted-Total (legal rule) = Total-pure tt
asserted-Total (illegal why) = Total-raise _ Error.illegal_transition refl

pub Total-transition :
    (r : Request) (to : RequestState) (actor : TransitionActor) → Total (transition r to actor)
unfolding transition check_transition
Total-transition r to actor =
    Total-bind (asserted (assert_transition r.state to actor))
      (λ _. apply_transition r.id to r.version >>= λ updated. or_raise updated Error.conflict)
      (asserted-Total (assert_transition r.state to actor))
      (λ _.
        Total-bind (apply_transition r.id to r.version) (λ updated. or_raise updated Error.conflict)
          (apply_transition-Total r.id to r.version)
          (λ updated. Total-or_raise updated Error.conflict refl))

pub ruleset total = (
  Total-find_request, Total-require_request, Total-bind, Total-branch, Total-on_option, Total-pure,
  Total-raise, Total-reads, Total-enqueue, Total-raise_if, Total-or_raise, Total-assign_expert,
  Total-complete_run, Total-on_store, Total-transition, interest, shortlist, start, settle, close,
  supersede,
)
