-- ===== src/Dispatch/Attempts.antt =====
-- Attempts as rows of a list: `MatchingAttemptRecord` of ports/matching-repositories.ts without its
-- scores, reasons and notes, which no operation of the store reads, and `patch`. Identifiers are
-- numbers and instants milliseconds.
use salesforce_expert_suppor.Prelude.{
  ℕ, Bool, ◌&&◌, Option, List, [], ◌∷◌, if◌then◌else◌, ◌==◌, same,
}
use salesforce_expert_suppor.Contracts.{
  AttemptStatus, AttemptStatus-discrete, AttemptOrigin, DeclineReasonCode,
}

pub record Attempt : Type 0 where
  pub id : ℕ
  pub matching_run_id : ℕ
  pub support_request_id : ℕ
  pub expert_profile_id : ℕ
  pub origin : AttemptOrigin
  pub rank : Option ℕ
  pub status : AttemptStatus
  pub offered_at : Option ℕ
  pub offer_expires_at : Option ℕ
  pub responded_at : Option ℕ
  pub response_seconds : Option ℕ
  pub decline_reason : Option DeclineReasonCode

abbrev pub has_status : AttemptStatus → Attempt → Bool
has_status status a = same AttemptStatus-discrete a.status status

-- `patch`: the first attempt with the id is replaced.
unfoldable pub patch : ℕ → (Attempt → Attempt) → List Attempt → List Attempt
patch id change [] = []
patch id change (a ∷ rest) = if a.id == id then change a ∷ rest else a ∷ patch id change rest

-- The offers that an expert holds, and the confirmations that an expert or a request waits for.
abbrev pub offered_to : ℕ → Attempt → Bool
offered_to expert a = (a.expert_profile_id == expert) && has_status AttemptStatus.offered a

abbrev pub confirming_by : ℕ → Attempt → Bool
confirming_by expert a = (a.expert_profile_id == expert) && has_status AttemptStatus.confirming a

abbrev pub confirming_on : ℕ → Attempt → Bool
confirming_on request a = (a.support_request_id == request) && has_status AttemptStatus.confirming a
