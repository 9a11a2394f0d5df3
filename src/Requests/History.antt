-- ===== src/Requests/History.antt =====
-- What a request can go through: the moves that `assertTransition` lets the services write, one
-- after another.
use salesforce_expert_suppor.Prelude.{
  ◌≡◌, refl, sym, ap, ◌∙◌, ◌⊎◌, inl, inr, Bool, true, false, not, ◌&&◌, ◌||◌, Option, none, some,
  List, [], ◌∷◌, arith, same, same→eq, index, In, all, all-In, Bool-cases, ◌≤◌, length,
}
use salesforce_expert_suppor.Contracts.{RequestState, RequestState-discrete}
use salesforce_expert_suppor.Requests.Machine.{
  TransitionActor, TransitionActor-discrete, system, customer, expert, admin, TransitionRule,
  transitions, TransitionReason, Asserted, legal, illegal, assert_transition, is_terminal,
  find_transition,
}
use salesforce_expert_suppor.Requests.Lookup.{assert_transition-legal}

-- One move: who made it, and where to.
abbrev pub Move : Type 0
Move = TransitionActor × RequestState

pub Asserted-cases :
    (a : Asserted)
    → ((r : TransitionRule) × (a ≡ legal r)) ⊎ ((why : TransitionReason) × (a ≡ illegal why))
Asserted-cases (legal r) = inl (r, refl)
Asserted-cases (illegal why) = inr (why, refl)

-- The state after a series of moves, or `none` if one of them was refused.
unfoldable pub replay : RequestState → List Move → Option RequestState
replay s [] = some s
replay s ((actor, to) ∷ moves) = elim (assert_transition s to actor) [
  | legal r ↦ replay to moves
  | illegal why ↦ none
]

-- An expert has said yes, or had said yes before the request came here.
unfoldable pub is_committed : RequestState → Bool
is_committed RequestState.accepted = true
is_committed RequestState.payment_pending = true
is_committed RequestState.ready = true
is_committed RequestState.in_session = true
is_committed RequestState.completed = true
is_committed RequestState.disputed = true
is_committed RequestState.refunded = true
is_committed _ = false

-- A rule into the committed states from outside leads to `accepted`, and is for experts only.
commits_by_expert : TransitionRule → Bool
commits_by_expert r =
    is_committed r.from
    || not (is_committed r.to)
    || (same RequestState-discrete r.to RequestState.accepted
        && all (λ a. same TransitionActor-discrete a expert) r.actors)

table_commits_by_expert : all commits_by_expert transitions ≡ true
unfolding commits_by_expert is_committed transitions RequestState-discrete TransitionActor-discrete
table_commits_by_expert = refl

commits_by_expert_lem :
    (r : TransitionRule)
    → commits_by_expert r ≡ true
    → is_committed r.from ≡ false
    → is_committed r.to ≡ true
    → (r.to ≡ RequestState.accepted)
      × (all (λ a. same TransitionActor-discrete a expert) r.actors ≡ true)
unfolding commits_by_expert
commits_by_expert_lem r c out into = ground arith

commit_step :
    (s to : RequestState) (actor : TransitionActor) (r : TransitionRule)
    → assert_transition s to actor ≡ legal r
    → is_committed s ≡ false
    → is_committed to ≡ true
    → (actor ≡ expert) × (to ≡ RequestState.accepted)
commit_step s to actor r h out into =
    let (i, f, t, a) = (assert_transition-legal s to actor r).0 h in
    let c = all-In commits_by_expert transitions r table_commits_by_expert i in
    let (e, by) = commits_by_expert_lem r c (rw f out) (rw t into) in
    let only = all-In (λ x. same TransitionActor-discrete x expert) r.actors actor by a in
    (same→eq TransitionActor-discrete actor expert only, sym t ∙ e)

-- Whatever happens to a request that no expert has committed to, it is in a committed state
-- only if an expert moved it to `accepted` on the way.
pub replay-consent :
    (moves : List Move) (s t : RequestState)
    → is_committed s ≡ false
    → replay s moves ≡ some t
    → is_committed t ≡ true
    → In (expert, RequestState.accepted) moves
unfolding replay
replay-consent [] s t out h into = ground arith
replay-consent ((actor, to) ∷ moves) s t out h into =
    elim (Asserted-cases (assert_transition s to actor)) [
      | inl (r, e) ↦ elim (Bool-cases (is_committed to)) [
        | inl b ↦ let (x, y) = commit_step s to actor r e out b in inl (cc)
        | inr b ↦ inr (replay-consent moves to t b (rw (e, replay) at h) into)
      ]
      | inr (why, e) ↦ ground arith
    ]

-- A shortest way from each state to one that nothing leaves.
abbrev pub escape : RequestState → List Move
escape RequestState.created = (customer, RequestState.cancelled) ∷ []
escape RequestState.classifying = (customer, RequestState.cancelled) ∷ []
escape RequestState.searching = (customer, RequestState.cancelled) ∷ []
escape RequestState.offered = (customer, RequestState.cancelled) ∷ []
escape RequestState.shortlisted = (system, RequestState.no_expert_found) ∷ []
escape RequestState.awaiting_expert_confirmation =
    (system, RequestState.shortlisted) ∷ (system, RequestState.no_expert_found) ∷ []
escape RequestState.accepted =
    (system, RequestState.payment_pending) ∷ (system, RequestState.cancelled) ∷ []
escape RequestState.payment_pending = (system, RequestState.cancelled) ∷ []
escape RequestState.ready =
    (system, RequestState.in_session)
    ∷ (system, RequestState.completed)
    ∷ (customer, RequestState.disputed)
    ∷ (admin, RequestState.refunded)
    ∷ []
escape RequestState.in_session =
    (system, RequestState.completed)
    ∷ (customer, RequestState.disputed)
    ∷ (admin, RequestState.refunded)
    ∷ []
escape RequestState.completed =
    (customer, RequestState.disputed) ∷ (admin, RequestState.refunded) ∷ []
escape RequestState.disputed = (admin, RequestState.refunded) ∷ []
escape _ = []

-- From every state at most four legal moves lead to a terminal one: no request is stranded by
-- the table.
pub replay_terminates :
    (s : RequestState)
    → (moves : List Move) × (t : RequestState) × (length moves ≤ 4)
      × (replay s moves ≡ some t)
      × (is_terminal t ≡ true)
unfolding replay assert_transition find_transition index is_terminal RequestState-discrete
    TransitionActor-discrete transitions
replay_terminates s = (escape s, destination s, short s, arrives s, ends s)
  where
    destination : RequestState → RequestState
    destination RequestState.created = RequestState.cancelled
    destination RequestState.classifying = RequestState.cancelled
    destination RequestState.searching = RequestState.cancelled
    destination RequestState.offered = RequestState.cancelled
    destination RequestState.shortlisted = RequestState.no_expert_found
    destination RequestState.awaiting_expert_confirmation = RequestState.no_expert_found
    destination RequestState.accepted = RequestState.cancelled
    destination RequestState.payment_pending = RequestState.cancelled
    destination RequestState.no_expert_found = RequestState.no_expert_found
    destination RequestState.cancelled = RequestState.cancelled
    destination _ = RequestState.refunded

    short : (s : RequestState) → length (escape s) ≤ 4
    short RequestState.created = omega arith
    short _ = omega arith

    arrives : (s : RequestState) → replay s (escape s) ≡ some (destination s)
    arrives RequestState.created = refl
    arrives _ = refl

    ends : (s : RequestState) → is_terminal (destination s) ≡ true
    ends RequestState.created = refl
    ends _ = refl

leaves_open : TransitionRule → Bool
leaves_open r = not (is_terminal r.from)

table_leaves_open : all leaves_open transitions ≡ true
unfolding leaves_open transitions is_terminal RequestState-discrete
table_leaves_open = refl

-- No move leaves a terminal state, whoever makes it.
pub replay_absorbed :
    (s : RequestState) (m : Move) (moves : List Move)
    → is_terminal s ≡ true
    → replay s (m ∷ moves) ≡ none
unfolding replay leaves_open
replay_absorbed s (actor, to) moves h = elim (Asserted-cases (assert_transition s to actor)) [
  | inl (r, e) ↦ absurd (stuck r ((assert_transition-legal s to actor r).0 e))
  | inr (why, e) ↦ rw (e, replay) refl
]
  where
    stuck :
        (r : TransitionRule) → In r transitions × (r.from ≡ s) × (r.to ≡ to) × In actor r.actors → ⊥
    stuck r (i, f, t, a) =
        ground (arith, all-In leaves_open transitions r table_leaves_open i, ap is_terminal f)
