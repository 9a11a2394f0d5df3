-- ===== src/Service/Safe.antt =====
-- Safe methods: from any world they only move the table of requests, as long as the records they
-- hold are known. One rule for each way to build a method, which `search` puts together.
use salesforce_expert_suppor.Prelude.{
  ℕ, ◌≡◌, refl, Bool, true, false, Option, none, some, List, ◌∷◌, Option-cases, inl, inr,
}
use salesforce_expert_suppor.Contracts.{RequestState, AttemptOrigin}
use salesforce_expert_suppor.Requests.Machine.{TransitionActor, assert_transition}
use salesforce_expert_suppor.Requests.History.{Move, Asserted-cases}
use salesforce_expert_suppor.Dispatch.Store.{Store}
use salesforce_expert_suppor.Service.World.{Request, World, Job, find_in}
use salesforce_expert_suppor.Service.Monad.{
  Action, Error, pure, raise, reads, on_store, branch, ◌>>=◌, on_option, enqueue, raise_if,
  or_raise, conflict,
}
use salesforce_expert_suppor.Service.Requests.{
  find_request, require_request, apply_transition, assign_expert, asserted, check_transition,
  transition,
}
use salesforce_expert_suppor.Service.Runs.{complete_run, persist_run, create_admin_attempt}
use salesforce_expert_suppor.Service.Follows.{
  Follows-refl, Moved-refl, Known-found, update_request-Moved,
}
use salesforce_expert_suppor.Service.Moving.{
  All-Known-Moved, Allowed, Held, Held-Known, Moved-bind, Safe, apply_found-Moved, found_state,
  moved-Follows, here, there,
}

module _ (p : Move → Bool) (held : List Request) where
  -- What leaves the requests alone is safe.
  pub Safe-quiet :
      {A : Type 0} (m : Action A) → ((w : World) → (m w).1.requests ≡ w.requests) → Safe p held m
  unfolding Safe
  Safe-quiet m q w k id = ((λ r h. (r, rw (q w) h, Follows-refl p r)), λ n. rw (q w) n)

  pub Safe-bind :
      {A B : Type 0} (m : Action A) (f : A → Action B)
      → Safe p held m
      → ((a : A) → Safe p held (f a))
      → Safe p held (m >>= f)
  unfolding Safe
  Safe-bind m f h k w known =
      Moved-bind p m f w (h w known) (λ a v goes. k a v (All-Known-Moved p held w v goes known))

  pub Safe-branch :
      {A : Type 0} (c : Bool) (m n : Action A)
      → Safe p held m
      → Safe p held n
      → Safe p held (branch c m n)
  unfolding Safe branch
  Safe-branch true m n h k = h
  Safe-branch false m n h k = k

  pub Safe-on_option :
      {A B : Type 0} (o : Option A) (m : Action B) (f : A → Action B)
      → Safe p held m
      → ((a : A) → Safe p held (f a))
      → Safe p held (on_option o m f)
  unfolding on_option
  Safe-on_option none m f h k = h
  Safe-on_option (some a) m f h k = k a

  pub Safe-pure : {A : Type 0} (a : A) → Safe p held (pure a)
  unfolding pure
  Safe-pure a = Safe-quiet (pure a) (λ w. refl)

  pub Safe-raise : (A : Type 0) (e : Error) → Safe p held (raise {A = A} e)
  unfolding raise
  Safe-raise A e = Safe-quiet (raise e) (λ w. refl)

  pub Safe-reads : {A : Type 0} (f : World → A) → Safe p held (reads f)
  unfolding reads
  Safe-reads f = Safe-quiet (reads f) (λ w. refl)

  pub Safe-on_store : {A : Type 0} (f : Store → A × Store) → Safe p held (on_store f)
  unfolding on_store
  Safe-on_store f = Safe-quiet (on_store f) (λ w. refl)

  pub Safe-enqueue : (job : Job) → Safe p held (enqueue job)
  unfolding enqueue
  Safe-enqueue job = Safe-quiet (enqueue job) (λ w. refl)

  pub Safe-raise_if : (c : Bool) (e : Error) → Safe p held (raise_if c e)
  unfolding raise_if
  Safe-raise_if c e = Safe-quiet (raise_if c e) (λ w. refl)

  pub Safe-or_raise : {A : Type 0} (o : Option A) (e : Error) → Safe p held (or_raise o e)
  unfolding or_raise
  Safe-or_raise none e = Safe-quiet (or_raise none e) (λ w. refl)
  Safe-or_raise (some a) e = Safe-quiet (or_raise (some a) e) (λ w. refl)

  -- A request that was just read is in hand.
  pub Safe-require :
      {A : Type 0} (id : ℕ) (f : Request → Action A)
      → ((r : Request) → Safe p (r ∷ held) (f r))
      → Safe p held (require_request id >>= f)
  unfolding Safe require_request find_request ◌>>=◌ or_raise reads
  Safe-require id f h w known = elim (Option-cases (find_in id w.requests)) [
    | inl n ↦ rw (n, or_raise) (Moved-refl p w)
    | inr (r, e) ↦ rw (e, or_raise) (h r w (Known-found p id w r e, known))
  ]

  pub Safe-find :
      {A : Type 0} (id : ℕ) (m : Action A) (f : Request → Action A)
      → Safe p held m
      → ((r : Request) → Safe p (r ∷ held) (f r))
      → Safe p held (find_request id >>= λ o. on_option o m f)
  unfolding Safe find_request ◌>>=◌ on_option reads
  Safe-find id m f k h w known = elim (Option-cases (find_in id w.requests)) [
    | inl n ↦ rw (n, on_option) (k w known)
    | inr (r, e) ↦ rw (e, on_option) (h r w (Known-found p id w r e, known))
  ]

  pub Safe-assign_expert : (id expert : ℕ) → Safe p held (assign_expert id expert)
  unfolding Safe assign_expert
  Safe-assign_expert id expert w known =
      update_request-Moved p id (λ r. record r { assigned_expert_id = some expert }) w
        (assign_expert id expert w).1 (λ r. refl) refl (λ r e. Follows-refl p r)

  pub Safe-complete_run : (run now : ℕ) → Safe p held (complete_run run now)
  unfolding complete_run
  Safe-complete_run run now = Safe-quiet (complete_run run now) (λ w. refl)

  pub Safe-persist_run :
      (request round level pool_size now : ℕ) (ranked : List (ℕ × ℕ)) (excluded : List ℕ)
      → Safe p held (persist_run request round level pool_size now ranked excluded)
  unfolding persist_run
  Safe-persist_run request round level pool_size now ranked excluded =
      Safe-quiet (persist_run request round level pool_size now ranked excluded) (λ w. refl)

  pub Safe-create_admin_attempt :
      (run request expert : ℕ) (origin : AttemptOrigin)
      → Safe p held (create_admin_attempt run request expert origin)
  unfolding create_admin_attempt
  Safe-create_admin_attempt run request expert origin =
      Safe-quiet (create_admin_attempt run request expert origin) (λ w. refl)

  -- A legal move of a record in hand is safe; an illegal one throws.
  pub Safe-transition :
      (r : Request) (to : RequestState) (actor : TransitionActor)
      → Held r held
      → p (actor, to) ≡ true
      → Safe p held (transition r to actor)
  unfolding Safe transition check_transition asserted apply_transition ◌>>=◌ pure raise
  Safe-transition r to actor i ok_move w known =
      let (s, e, follows) = Held-Known p w r held i known in
      elim (Asserted-cases (assert_transition r.state to actor)) [
        | inl (rule, l) ↦
            rw (l, asserted)
              (Moved-bind p (apply_transition r.id to r.version) (λ u. or_raise u conflict) w
                (rw e (apply_found-Moved p r s to actor rule w l e follows ok_move))
                (λ u v goes. Safe-or_raise u conflict v (All-Known-Moved p held w v goes known)))
        | inr (why, l) ↦ rw (l, asserted) (Moved-refl p w)
      ]

pub ruleset steps = (
  Safe-require, Safe-find, Safe-bind, Safe-branch, Safe-on_option, Safe-pure, Safe-raise,
  Safe-reads, Safe-on_store, Safe-enqueue, Safe-raise_if, Safe-or_raise, Safe-assign_expert,
  Safe-complete_run, Safe-persist_run, Safe-create_admin_attempt, Safe-transition, here, there,
)
