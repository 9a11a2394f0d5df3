-- ===== src/Requests/Terminal.antt =====
-- TERMINAL_STATES of state-machine.ts against the table: where a request can still go.
use salesforce_expert_suppor.Prelude.{◌≡◌, ◌↔◌, true, none, [], arith, targets}
use salesforce_expert_suppor.Contracts.{RequestState, RequestState-discrete}
use salesforce_expert_suppor.Requests.Machine.{transitions, is_terminal, admits, next_states}

-- The listed terminal states are exactly those that no rule leaves.
pub is_terminal-next_states :
    (s : RequestState) → (is_terminal s ≡ true) ↔ (next_states s none ≡ [])
unfolding is_terminal next_states targets admits transitions RequestState-discrete
is_terminal-next_states RequestState.created = ground arith
is_terminal-next_states _ = ground arith
