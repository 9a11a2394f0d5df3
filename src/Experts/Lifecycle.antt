-- ===== src/Experts/Lifecycle.antt =====
-- The two machines of an expert, the application and the availability toggle, against their tables.
use salesforce_expert_suppor.Prelude.{
  ◌≡◌, refl, ◌↔◌, ◌⊎◌, inl, inr, Bool, true, false, not, ◌&&◌, ◌||◌, Option, some, arith, In, all,
  all-In, same, same→eq, includes, includes_iff, index, index_iff, targets_iff, distinct_keys,
  Option-cases, select-In, In-select,
}
use salesforce_expert_suppor.Contracts.{
  ExpertStatus, ExpertStatus-discrete, AvailabilityStatus, AvailabilityStatus-discrete,
  AvailabilityChangeSource, AvailabilityChangeSource-discrete,
}
use salesforce_expert_suppor.Requests.Machine.{TransitionActor, TransitionActor-discrete, admin}
use salesforce_expert_suppor.Experts.Status.{
  ExpertTransitionRule, expert_transitions, find_expert_transition, admits, can_transition_expert,
  next_expert_statuses, legal, assert_expert_transition, SubmissionField, FieldValue, missing,
  empty, is_blank, missing_for_submission, required_for_submission,
}
use salesforce_expert_suppor.Experts.Availability.{
  availability_transitions, find_availability_transition, can_change_availability,
}

expert_transitions_distinct :
    distinct_keys ExpertStatus-discrete (λ r. r.from) (λ r. r.to) expert_transitions ≡ true
unfolding distinct_keys expert_transitions ExpertStatus-discrete
expert_transitions_distinct = refl

find_expert_transition_iff :
    (from to : ExpertStatus) (r : ExpertTransitionRule)
    → (find_expert_transition from to ≡ some r)
      ↔ (In r expert_transitions × (r.from ≡ from) × (r.to ≡ to))
unfolding find_expert_transition
find_expert_transition_iff from to r =
    index_iff ExpertStatus-discrete (λ x. x.from) (λ x. x.to) expert_transitions from to r
      expert_transitions_distinct

assert_expert_found :
    (from to : ExpertStatus) (actor : TransitionActor) (r : ExpertTransitionRule)
    → (assert_expert_transition from to actor ≡ legal r) ↔ (
        (find_expert_transition from to ≡ some r)
        × (includes TransitionActor-discrete actor r.actors ≡ true))
unfolding assert_expert_transition
assert_expert_found from to actor r = ground arith

-- The statuses that an administrator decides on.
abbrev pub is_decision : ExpertStatus → Bool
is_decision ExpertStatus.approved = true
is_decision ExpertStatus.rejected = true
is_decision ExpertStatus.suspended = true
is_decision _ = false

decided_by_admin : ExpertTransitionRule → Bool
decided_by_admin r =
    not (is_decision r.to)
    || (r.requires_reason && all (λ a. same TransitionActor-discrete a admin) r.actors)

table_decided_by_admin : all decided_by_admin expert_transitions ≡ true
unfolding decided_by_admin expert_transitions TransitionActor-discrete
table_decided_by_admin = refl

decided_by_admin_lem :
    (r : ExpertTransitionRule)
    → decided_by_admin r ≡ true
    → is_decision r.to ≡ true
    → (r.requires_reason ≡ true)
      × (all (λ a. same TransitionActor-discrete a admin) r.actors ≡ true)
unfolding decided_by_admin
decided_by_admin_lem r h d = ground arith

-- Every move to APPROVED, REJECTED or SUSPENDED that is accepted was made by an administrator, under
-- a rule that demands a reason.
pub assert_expert_transition-decision :
    (from to : ExpertStatus) (actor : TransitionActor) (r : ExpertTransitionRule)
    → assert_expert_transition from to actor ≡ legal r
    → is_decision to ≡ true
    → (actor ≡ admin) × (r.requires_reason ≡ true)
assert_expert_transition-decision from to actor r h d =
    let (f, listed) = (assert_expert_found from to actor r).0 h in
    let (i, _, t) = (find_expert_transition_iff from to r).0 f in
    let checked = all-In decided_by_admin expert_transitions r table_decided_by_admin i in
    let (reason, by) = decided_by_admin_lem r checked (rw t d) in
    let by_admin = (includes_iff TransitionActor-discrete actor r.actors).0 listed in
    let only = all-In (λ x. same TransitionActor-discrete x admin) r.actors actor by by_admin in
    (same→eq TransitionActor-discrete actor admin only, reason)

can_expert_found :
    (from to : ExpertStatus) (actor : Option TransitionActor)
    → (can_transition_expert from to actor ≡ true) ↔ (
        (r : ExpertTransitionRule) × (find_expert_transition from to ≡ some r)
        × (admits r actor ≡ true))
unfolding can_transition_expert
can_expert_found from to actor = (
  λ h. elim (Option-cases (find_expert_transition from to)) [
    | inl e ↦ ground arith
    | inr (r, e) ↦ (r, e, ground arith)
  ],
  λ h. ground (arith, h.1, h.2),
)

-- The list of next statuses and the yes-or-no question agree, for each actor and for none.
pub next_expert_statuses-can :
    (from to : ExpertStatus) (actor : Option TransitionActor)
    → In to (next_expert_statuses from actor) ↔ (can_transition_expert from to actor ≡ true)
unfolding next_expert_statuses
next_expert_statuses-can from to actor =
    let listed =
      targets_iff ExpertStatus-discrete (λ x. x.from) (λ x. x.to) (λ x. admits x actor)
        expert_transitions from to expert_transitions_distinct in
    let found = can_expert_found from to actor in
    (
      λ h. found.1 (unfold find_expert_transition in listed.0 h),
      λ h. listed.1 (unfold find_expert_transition in found.0 h),
    )

required_complete : (field : SubmissionField) → In field required_for_submission
required_complete SubmissionField.country = ground arith
required_complete _ = ground arith

-- The missing fields are exactly those that are absent or empty: nothing else keeps an application
-- from being submitted, and no blank field is overlooked.
pub missing_for_submission_iff :
    (application : SubmissionField → FieldValue) (field : SubmissionField)
    → In field (missing_for_submission application)
      ↔ ((application field ≡ missing) ⊎ (application field ≡ empty))
unfolding missing_for_submission
missing_for_submission_iff application field =
    let blank = λ (f : SubmissionField). is_blank (application f) in
    (
      λ h. ground (arith, select-In blank required_for_submission field h),
      λ h. In-select blank required_for_submission field (required_complete field) (ground arith),
    )

-- An expert who toggles by hand moves between OFFLINE and AVAILABLE and nowhere else: neither an
-- open offer nor a session can be left, or entered, that way.
pub can_change_availability-manual :
    (from to : AvailabilityStatus)
    → (can_change_availability from to AvailabilityChangeSource.manual_toggle ≡ true) ↔ (
        ((from ≡ AvailabilityStatus.offline) × (to ≡ AvailabilityStatus.available))
        ⊎ ((from ≡ AvailabilityStatus.available) × (to ≡ AvailabilityStatus.offline)))
unfolding can_change_availability find_availability_transition index availability_transitions
    AvailabilityStatus-discrete AvailabilityChangeSource-discrete
can_change_availability-manual AvailabilityStatus.offline AvailabilityStatus.offline = ground arith
can_change_availability-manual _ _ = ground arith
