-- ===== src/Requests/Lookup.antt =====
-- The lookups of state-machine.ts against the table: what `assertTransition` accepts is what the
-- table lists, and `nextStates`, `canTransition` and `assertTransition` give one answer.
use salesforce_expert_suppor.Prelude.{
  ◌≡◌, refl, ◌↔◌, inl, inr, true, Option, some, arith, includes, In, distinct_keys, index_iff,
  targets_iff, includes_iff, Option-cases,
}
use salesforce_expert_suppor.Contracts.{RequestState, RequestState-discrete}
use salesforce_expert_suppor.Requests.Machine.{
  TransitionActor, TransitionActor-discrete, TransitionRule, transitions, find_transition, admits,
  can_transition, next_states, legal, assert_transition,
}

transitions_distinct :
    distinct_keys RequestState-discrete (λ r. r.from) (λ r. r.to) transitions ≡ true
unfolding distinct_keys transitions RequestState-discrete
transitions_distinct = refl

-- The lookup finds exactly the rules of the table.
pub find_transition_iff :
    (from to : RequestState) (r : TransitionRule)
    → (find_transition from to ≡ some r) ↔ (In r transitions × (r.from ≡ from) × (r.to ≡ to))
unfolding find_transition
find_transition_iff from to r =
    index_iff RequestState-discrete (λ x. x.from) (λ x. x.to) transitions from to r
      transitions_distinct

assert_found :
    (from to : RequestState) (actor : TransitionActor) (r : TransitionRule)
    → (assert_transition from to actor ≡ legal r) ↔ (
        (find_transition from to ≡ some r)
        × (includes TransitionActor-discrete actor r.actors ≡ true))
unfolding assert_transition
assert_found from to actor r = ground arith

-- `assertTransition` accepts a move exactly if the table has a rule for it that lists the actor.
pub assert_transition-legal :
    (from to : RequestState) (actor : TransitionActor) (r : TransitionRule)
    → (assert_transition from to actor ≡ legal r)
      ↔ (In r transitions × (r.from ≡ from) × (r.to ≡ to) × In actor r.actors)
assert_transition-legal from to actor r = (
  λ h.
      let (found, listed) = (assert_found from to actor r).0 h in
      let (i, f, t) = (find_transition_iff from to r).0 found in
      (i, f, t, (includes_iff TransitionActor-discrete actor r.actors).0 listed),
  λ h. (assert_found from to actor r).1 (
    (find_transition_iff from to r).1 (h.0, h.1, h.2),
    (includes_iff TransitionActor-discrete actor r.actors).1 h.3,
  ),
)

can_found :
    (from to : RequestState) (actor : Option TransitionActor)
    → (can_transition from to actor ≡ true)
      ↔ ((r : TransitionRule) × (find_transition from to ≡ some r) × (admits r actor ≡ true))
unfolding can_transition
can_found from to actor = (
  λ h. elim (Option-cases (find_transition from to)) [
    | inl e ↦ ground arith
    | inr (r, e) ↦ (r, e, ground arith)
  ],
  λ h. ground (arith, h.1, h.2),
)

-- `nextStates` lists exactly the states for which `canTransition` says yes, for every actor and
-- for no actor at all.
pub next_states-can_transition :
    (from to : RequestState) (actor : Option TransitionActor)
    → In to (next_states from actor) ↔ (can_transition from to actor ≡ true)
unfolding next_states
next_states-can_transition from to actor =
    let listed =
      targets_iff RequestState-discrete (λ x. x.from) (λ x. x.to) (λ x. admits x actor) transitions
        from to transitions_distinct in
    let found = can_found from to actor in
    (
      λ h. found.1 (unfold find_transition in listed.0 h),
      λ h. listed.1 (unfold find_transition in found.0 h),
    )

-- `assertTransition` throws exactly when `canTransition` says no to the actor.
pub can_transition-assert :
    (from to : RequestState) (actor : TransitionActor)
    → (can_transition from to (some actor) ≡ true)
      ↔ ((r : TransitionRule) × (assert_transition from to actor ≡ legal r))
unfolding admits
can_transition-assert from to actor = (
  λ h.
      let (r, f, a) = (can_found from to (some actor)).0 h in
      (r, (assert_found from to actor r).1 (f, a)),
  λ h.
      let (f, a) = (assert_found from to actor h.0).0 h.1 in
      (can_found from to (some actor)).1 (h.0, f, a),
)
