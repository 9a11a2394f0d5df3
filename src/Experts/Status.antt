-- ===== src/Experts/Status.antt =====
-- experts/expert-status.ts. The human-readable `description` of a rule is left out.
use salesforce_expert_suppor.Prelude.{
  Bool, true, false, Option, none, some, List, [], ◌∷◌, if◌then◌else◌, index, targets, includes,
  select,
}
use salesforce_expert_suppor.Contracts.{ExpertStatus, ExpertStatus-discrete}
use salesforce_expert_suppor.Requests.Machine.{
  TransitionActor, TransitionActor-discrete, expert, admin,
}

pub record ExpertTransitionRule : Type 0 where
  pub from : ExpertStatus
  pub to : ExpertStatus
  pub actors : List TransitionActor
  pub requires_reason : Bool

abbrev rule : ExpertStatus → ExpertStatus → List TransitionActor → Bool → ExpertTransitionRule
rule from to actors reason = record {
  from = from;
  to = to;
  actors = actors;
  requires_reason = reason;
}

unfoldable pub expert_transitions : List ExpertTransitionRule
expert_transitions =
    rule ExpertStatus.draft ExpertStatus.submitted (expert ∷ []) false
    ∷ rule ExpertStatus.submitted ExpertStatus.under_review (admin ∷ []) false
    ∷ rule ExpertStatus.submitted ExpertStatus.approved (admin ∷ []) true
    ∷ rule ExpertStatus.submitted ExpertStatus.rejected (admin ∷ []) true
    ∷ rule ExpertStatus.under_review ExpertStatus.approved (admin ∷ []) true
    ∷ rule ExpertStatus.under_review ExpertStatus.rejected (admin ∷ []) true
    ∷ rule ExpertStatus.rejected ExpertStatus.draft (expert ∷ admin ∷ []) false
    ∷ rule ExpertStatus.approved ExpertStatus.suspended (admin ∷ []) true
    ∷ rule ExpertStatus.suspended ExpertStatus.approved (admin ∷ []) true
    ∷ []

-- `status === "APPROVED"`, on a status that may be missing.
unfoldable pub is_eligible_for_matching : Option ExpertStatus → Bool
is_eligible_for_matching (some ExpertStatus.approved) = true
is_eligible_for_matching _ = false

abbrev pub reviewable_statuses : List ExpertStatus
reviewable_statuses = ExpertStatus.submitted ∷ ExpertStatus.under_review ∷ []

unfoldable pub is_pending_review : ExpertStatus → Bool
is_pending_review status = includes ExpertStatus-discrete status reviewable_statuses

unfoldable pub find_expert_transition : ExpertStatus → ExpertStatus → Option ExpertTransitionRule
find_expert_transition from to =
    index ExpertStatus-discrete (λ r. r.from) (λ r. r.to) expert_transitions from to

unfoldable pub admits : ExpertTransitionRule → Option TransitionActor → Bool
admits r none = true
admits r (some actor) = includes TransitionActor-discrete actor r.actors

unfoldable pub can_transition_expert : ExpertStatus → ExpertStatus → Option TransitionActor → Bool
can_transition_expert from to actor = elim (find_expert_transition from to) [
  | none ↦ false
  | some r ↦ admits r actor
]

unfoldable pub next_expert_statuses : ExpertStatus → Option TransitionActor → List ExpertStatus
next_expert_statuses from actor =
    targets ExpertStatus-discrete (λ r. r.from) (λ r. r.to) (λ r. admits r actor) expert_transitions
      from

-- Why an `IllegalTransitionError` was thrown, with the data of its message.
pub data ExpertTransitionReason : Type 0 where
  no_such_rule : List ExpertStatus → ExpertTransitionReason
  actor_not_allowed : List TransitionActor → ExpertTransitionReason

pub data AssertedExpert : Type 0 where
  legal : ExpertTransitionRule → AssertedExpert
  illegal : ExpertTransitionReason → AssertedExpert

unfoldable pub assert_expert_transition :
    ExpertStatus → ExpertStatus → TransitionActor → AssertedExpert
assert_expert_transition from to actor = elim (find_expert_transition from to) [
  | none ↦ illegal (no_such_rule (next_expert_statuses from none))
  | some r ↦
      if includes TransitionActor-discrete actor r.actors
      then legal r
      else illegal (actor_not_allowed r.actors)
]

pub data SubmissionField : Type 0 where
  country timezone years_experience professional_summary phone trailhead_url : SubmissionField
  terms_accepted_at confidentiality_accepted_at : SubmissionField

abbrev pub required_for_submission : List SubmissionField
required_for_submission =
    country ∷ timezone ∷ years_experience ∷ professional_summary ∷ phone ∷ trailhead_url
    ∷ terms_accepted_at ∷ confidentiality_accepted_at ∷ []

-- What an application holds in a field: `null` or `undefined`, the empty string, or a value.
pub data FieldValue : Type 0 where
  missing empty filled : FieldValue

abbrev pub is_blank : FieldValue → Bool
is_blank missing = true
is_blank empty = true
is_blank filled = false

unfoldable pub missing_for_submission : (SubmissionField → FieldValue) → List SubmissionField
missing_for_submission application =
    select (λ field. is_blank (application field)) required_for_submission
