-- ===== src/Service/Ends/Dispatch.antt =====
-- The dispatch of offers ends in valid worlds, and on the fuel that it is given.
use salesforce_expert_suppor.Prelude.{ℕ, zero, suc, ◌+◌, ◌<◌, ◌≡◌, false, ltb, arith}
use salesforce_expert_suppor.Service.World.{Request, World, Run}
use salesforce_expert_suppor.Service.Valid.{Total, Ended-bind, total}
use salesforce_expert_suppor.Matching.Number.{Number}
use salesforce_expert_suppor.Matching.Relaxation.{max_relaxation_level}
use salesforce_expert_suppor.Service.Monad.{ok, ◌>>=◌, reads, or_raise}
use salesforce_expert_suppor.Service.Setup.{Deps}
use salesforce_expert_suppor.Service.Runs.{latest_run, next_round_number, persist_run}
use salesforce_expert_suppor.Service.Dispatch.{
  create_run, try_offer_from_run, dispatch_from, current_run, dispatch_exclusive,
}
use salesforce_expert_suppor.Service.Fresh.{Total-persist_run}
use salesforce_expert_suppor.Service.Offering.{try_offers_fuel}
use salesforce_expert_suppor.Service.Ends.Responses.{give_up-Total}

module _ (N : Number) (D : Deps N) where
  pub latest_run-Total : (request : ℕ) → Total (latest_run request)
  unfolding latest_run
  latest_run-Total request = search total depth 40

  pub next_round_number-Total : (request : ℕ) → Total (next_round_number request)
  unfolding next_round_number
  next_round_number-Total request = search total depth 40

  pub create_run-Total :
      (request : Request) (level : ℕ) (now : ℕ) → Total (create_run N D request level now)
  unfolding create_run
  create_run-Total request level now =
      search (total, next_round_number-Total, Total-persist_run) depth 40

  try_offer_from_run-Total :
      (request : Request) (run now : ℕ) → Total (try_offer_from_run N D request run now)
  unfolding Total try_offer_from_run
  try_offer_from_run-Total request run now w valid =
      try_offers_fuel N D request run now _ w valid (omega arith)

  create_run_level :
      (request : Request) (level now : ℕ) (w : World) (run : Run)
      → (create_run N D request level now w).0 ≡ ok run
      → run.relaxation_level ≡ level
  unfolding create_run ◌>>=◌ reads or_raise next_round_number persist_run
  create_run_level request level now w run h = ground arith

  -- The next turn of `dispatchNextOffer`, on a run of the next level.
  widen-Total :
      (fuel : ℕ) (request : Request) (level now : ℕ)
      → ((run : Run)
          → 0 < fuel
          → max_relaxation_level < run.relaxation_level + fuel
          → Total (dispatch_from N D fuel request run now))
      → ltb max_relaxation_level (suc level) ≡ false
      → max_relaxation_level < level + suc fuel
      → Total (
          create_run N D request (suc level) now >>= λ wider.
          dispatch_from N D fuel request wider now)
  unfolding Total
  widen-Total fuel request level now again within enough w valid =
      Ended-bind (create_run N D request (suc level) now)
        (λ wider. dispatch_from N D fuel request wider now) w
        (create_run-Total request (suc level) now w valid)
        (λ run e u.
          let at = create_run_level request (suc level) now w run e in
          again run (ground arith) (ground arith) (create_run N D request (suc level) now w).1 u)

  dispatch_from-Total :
      (fuel : ℕ) (request : Request) (run : Run) (now : ℕ)
      → 0 < fuel
      → max_relaxation_level < run.relaxation_level + fuel
      → Total (dispatch_from N D fuel request run now)
  unfolding dispatch_from
  dispatch_from-Total zero request run now some_fuel enough = absurd (omega arith)
  dispatch_from-Total (suc fuel) request run now some_fuel enough =
      search
        (
          total,
          try_offer_from_run-Total,
          give_up-Total,
          widen-Total fuel request run.relaxation_level now
              (λ wider. dispatch_from-Total fuel request wider now),
        )
        depth 40

  pub current_run-Total : (request : Request) (now : ℕ) → Total (current_run N D request now)
  unfolding current_run
  current_run-Total request now = search (total, latest_run-Total, create_run-Total) depth 40

  four_turns-Total :
      (request : Request) (run : Run) (now : ℕ) → Total (dispatch_from N D 4 request run now)
  four_turns-Total request run now =
      dispatch_from-Total 4 request run now (omega arith) (omega arith)

  pub dispatch_exclusive-Total : (id now : ℕ) → Total (dispatch_exclusive N D id now)
  unfolding dispatch_exclusive
  dispatch_exclusive-Total id now =
      search (total, give_up-Total, current_run-Total, four_turns-Total) depth 40
