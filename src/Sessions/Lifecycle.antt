-- ===== src/Sessions/Lifecycle.antt =====
-- sessions/session-lifecycle.ts. Instants are milliseconds. Where the source takes a difference of
-- two instants, which may be negative, the subtrahend is moved to the other side.
use salesforce_expert_suppor.Prelude.{
  ℕ, ◌+◌, ◌-◌, ◌*◌, ◌/◌, min, Bool, true, false, Option, none, some, List, [], ◌∷◌, leb, ◌==◌,
  if◌then◌else◌, includes,
}
use salesforce_expert_suppor.Contracts.{SessionState, SessionState-discrete}

abbrev pub overrun_grace_minutes : ℕ
overrun_grace_minutes = 10

abbrev pub no_show_after_minutes : ℕ
no_show_after_minutes = 15

unfoldable pub legal_targets : SessionState → List SessionState
legal_targets SessionState.scheduled = SessionState.ready ∷ SessionState.abandoned ∷ []
legal_targets SessionState.ready = SessionState.active ∷ SessionState.abandoned ∷ []
legal_targets SessionState.active = SessionState.completed ∷ SessionState.abandoned ∷ []
legal_targets SessionState.completed = []
legal_targets SessionState.abandoned = []

unfoldable pub can_session_transition : SessionState → SessionState → Bool
can_session_transition from to = includes SessionState-discrete to (legal_targets from)

abbrev is_empty : List SessionState → Bool
is_empty [] = true
is_empty (_ ∷ _) = false

unfoldable pub is_session_over : SessionState → Bool
is_session_over state = is_empty (legal_targets state)

-- The default of `extraMinutes`.
abbrev pub or_zero : Option ℕ → ℕ
or_zero none = 0
or_zero (some minutes) = minutes

abbrev pub minute_ms : ℕ
minute_ms = 60000

-- `Math.ceil(n / d)`
abbrev pub ceil_div : ℕ → ℕ → ℕ
ceil_div n d = (n + (d - 1)) / d

unfoldable pub minutes_delivered : ℕ → ℕ → ℕ → Option ℕ → ℕ
minutes_delivered started_at ended_at purchased_minutes extra_minutes =
    if leb ended_at started_at
    then 0
    else min (purchased_minutes + or_zero extra_minutes)
        (ceil_div (ended_at - started_at) minute_ms)

-- `Math.max(0, Math.ceil((total - (now - started)) / 1000))`: the difference stops at 0 here too.
unfoldable pub seconds_remaining : ℕ → ℕ → ℕ → Option ℕ → ℕ
seconds_remaining started_at now purchased_minutes extra_minutes =
    let total = (purchased_minutes + or_zero extra_minutes) * minute_ms in
    ceil_div (total + started_at - now) 1000

pub data CloseReason : Type 0 where
  no_show overran : CloseReason

abbrev reason_if : Bool → CloseReason → Option CloseReason
reason_if true reason = some reason
reason_if false reason = none

unfoldable pub auto_close_reason :
    SessionState → Option ℕ → Option ℕ → ℕ → ℕ → Option ℕ → Option CloseReason
auto_close_reason SessionState.ready (some ready_at) started_at now purchased_minutes
      extra_minutes =
    reason_if (leb (ready_at + no_show_after_minutes * minute_ms) now) no_show
auto_close_reason SessionState.active ready_at (some started_at) now purchased_minutes
      extra_minutes =
    reason_if
      (leb
        (started_at
          + (purchased_minutes + or_zero extra_minutes + overrun_grace_minutes) * minute_ms)
        now)
      overran
auto_close_reason _ _ _ _ _ _ = none

pub data Participant : Type 0 where
  customer expert : Participant

unfoldable pub participant_role : ℕ → ℕ → ℕ → Option Participant
participant_role customer_user_id expert_user_id actor_user_id =
    if actor_user_id == customer_user_id
    then some customer
    else if actor_user_id == expert_user_id
    then some expert
    else none
