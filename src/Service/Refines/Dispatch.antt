-- ===== src/Service/Refines/Dispatch.antt =====
-- The dispatch of offers, on any fuel, is safe.
use salesforce_expert_suppor.Prelude.{ℕ, zero, suc, Bool, List}
use salesforce_expert_suppor.Dispatch.Attempts.{Attempt}
use salesforce_expert_suppor.Requests.History.{Move}
use salesforce_expert_suppor.Service.World.{Request, Run}
use salesforce_expert_suppor.Service.Moving.{Safe, Held, Allowed}
use salesforce_expert_suppor.Service.Safe.{steps}
use salesforce_expert_suppor.Matching.Number.{Number}
use salesforce_expert_suppor.Service.Setup.{Deps}
use salesforce_expert_suppor.Service.Runs.{latest_run, next_round_number, next_ranked_attempt}
use salesforce_expert_suppor.Service.Dispatch.{
  try_open, withdraw, create_run, try_offers, try_offer_from_run, dispatch_from, current_run,
  dispatch_exclusive,
}
use salesforce_expert_suppor.Service.Refines.Responses.{give_up-Safe, announce-Safe}

module _ (N : Number) (D : Deps N) where
  pub try_open-Safe :
      (p : Move → Bool) (held : List Request) (attempt : Attempt) (now : ℕ) (expires_at : ℕ)
      → Allowed p
      → Safe p held (try_open attempt now expires_at)
  unfolding try_open
  try_open-Safe p held attempt now expires_at allowed = search steps depth 40

  pub withdraw-Safe :
      (p : Move → Bool) (held : List Request) (attempt : Attempt) (now : ℕ)
      → Allowed p
      → Safe p held (withdraw attempt now)
  unfolding withdraw
  withdraw-Safe p held attempt now allowed = search steps depth 40

  pub latest_run-Safe :
      (p : Move → Bool) (held : List Request) (request : ℕ)
      → Allowed p
      → Safe p held (latest_run request)
  unfolding latest_run
  latest_run-Safe p held request allowed = search steps depth 40

  pub next_round_number-Safe :
      (p : Move → Bool) (held : List Request) (request : ℕ)
      → Allowed p
      → Safe p held (next_round_number request)
  unfolding next_round_number
  next_round_number-Safe p held request allowed = search steps depth 40

  pub create_run-Safe :
      (p : Move → Bool) (held : List Request) (request : Request) (level : ℕ) (now : ℕ)
      → Allowed p
      → Safe p held (create_run N D request level now)
  unfolding create_run
  create_run-Safe p held request level now allowed = search (steps, next_round_number-Safe) depth 40

  pub try_offers-Safe :
      (p : Move → Bool) (held : List Request) (fuel : ℕ) (request : Request) (run : ℕ) (now : ℕ)
      → Held request held
      → Allowed p
      → Safe p held (try_offers N D fuel request run now)
  unfolding try_offers next_ranked_attempt
  try_offers-Safe p held zero request run now in_hand allowed = search (steps)
  try_offers-Safe p held (suc fuel) request run now in_hand allowed =
      search (steps, try_open-Safe, withdraw-Safe, announce-Safe, try_offers-Safe p held fuel) depth
        40

  pub try_offer_from_run-Safe :
      (p : Move → Bool) (held : List Request) (request : Request) (run : ℕ) (now : ℕ)
      → Held request held
      → Allowed p
      → Safe p held (try_offer_from_run N D request run now)
  unfolding try_offer_from_run Safe
  try_offer_from_run-Safe p held request run now in_hand allowed w =
      try_offers-Safe p held _ request run now in_hand allowed w

  pub dispatch_from-Safe :
      (p : Move → Bool) (held : List Request) (fuel : ℕ) (request : Request) (run : Run) (now : ℕ)
      → Held request held
      → Allowed p
      → Safe p held (dispatch_from N D fuel request run now)
  unfolding dispatch_from
  dispatch_from-Safe p held zero request run now in_hand allowed = search (steps)
  dispatch_from-Safe p held (suc fuel) request run now in_hand allowed =
      search
        (
          steps,
          try_offer_from_run-Safe,
          give_up-Safe,
          create_run-Safe,
          dispatch_from-Safe p held fuel,
        )
        depth 40

  pub current_run-Safe :
      (p : Move → Bool) (held : List Request) (request : Request) (now : ℕ)
      → Allowed p
      → Safe p held (current_run N D request now)
  unfolding current_run
  current_run-Safe p held request now allowed =
      search (steps, latest_run-Safe, create_run-Safe) depth 40

  pub dispatch_exclusive-Safe :
      (p : Move → Bool) (held : List Request) (id : ℕ) (now : ℕ)
      → Allowed p
      → Safe p held (dispatch_exclusive N D id now)
  unfolding dispatch_exclusive
  dispatch_exclusive-Safe p held id now allowed =
      search (steps, give_up-Safe, current_run-Safe, dispatch_from-Safe) depth 40
