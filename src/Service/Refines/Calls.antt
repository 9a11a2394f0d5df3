-- ===== src/Service/Refines/Calls.antt =====
-- What any series of calls of the matching service and of checkout does to the requests.
use salesforce_expert_suppor.Prelude.{
  ℕ, ◌+◌, ◌≡◌, refl, Bool, true, false, some, List, [], ◌∷◌, length, In, any, all, all-In, In→any,
  inl, inr, arith, Bool-cases,
}
use salesforce_expert_suppor.Contracts.{RequestState}
use salesforce_expert_suppor.Requests.Machine.{TransitionActor}
use salesforce_expert_suppor.Requests.History.{Move, replay, is_committed, replay-consent}
use salesforce_expert_suppor.Matching.Number.{Number}
use salesforce_expert_suppor.Service.World.{World, Request, find_in}
use salesforce_expert_suppor.Service.Setup.{Deps}
use salesforce_expert_suppor.Service.Calls.{
  Call, begin_searching, dispatching, closing_window, answering_interest, selecting, confirming,
  refusing, lapsing, accepting, declining, expiring_offer, expiring_search, assigning, forcing,
  withdrawing_stale, recovering, reconciling, paying, is_consent, perform, perform_all,
}
use salesforce_expert_suppor.Service.Follows.{Moved, Moved-refl, Moved-trans}
use salesforce_expert_suppor.Service.Moving.{Safe, Allowed}
use salesforce_expert_suppor.Service.Refines.Responses.{
  accept_offer-Safe, decline_offer-Safe, expire_offer-Safe, expire_matching-Safe, respond-Safe,
}
use salesforce_expert_suppor.Service.Refines.Pool.{
  close_interest_window-Safe, select_candidate-Safe, confirm_selection-Safe,
  lapse_confirmation-Safe, decline_confirmation-Safe,
}
use salesforce_expert_suppor.Service.Refines.Checkout.{pay-Safe}
use salesforce_expert_suppor.Service.Refines.Admin.{
  admin_assign-Safe, admin_force_assign-Safe, dispatch_next_offer-Safe, begin_search-Safe,
  reconcile_stale_offers-Safe, recover_stalled_searches-Safe, reconcile_lapsed-Safe,
}

is_not_expert : Move → Bool
is_not_expert (TransitionActor.expert, to) = false
is_not_expert (_, to) = true

others : Allowed is_not_expert
unfolding is_not_expert
others = record { by_system = λ to. refl; by_customer = λ to. refl; by_admin = λ to. refl }

uncommitted :
    (moves : List Move) (s t : RequestState)
    → is_committed s ≡ false
    → all is_not_expert moves ≡ true
    → replay s moves ≡ some t
    → is_committed t ≡ false
uncommitted moves s t out quiet h = elim (Bool-cases (is_committed t)) [
  | inl y ↦
      let yes_move =
        all-In is_not_expert moves (TransitionActor.expert, RequestState.accepted) quiet
          (replay-consent moves s t out h y) in
      unfold is_not_expert in cc
  | inr n ↦ n
]

module _ (N : Number) (D : Deps N) where
  perform-Moved :
      (p : Move → Bool) (call : Call) (w : World)
      → Allowed p
      → (is_consent call ≡ true → p (TransitionActor.expert, RequestState.accepted) ≡ true)
      → Moved p w (perform N D call w)
  unfolding perform Safe is_consent
  perform-Moved p (begin_searching id now) w allowed yes_move =
      begin_search-Safe N D p [] id now allowed w tt
  perform-Moved p (dispatching id now) w allowed yes_move =
      dispatch_next_offer-Safe N D p [] id now allowed w tt
  perform-Moved p (closing_window id now) w allowed yes_move =
      close_interest_window-Safe N D p [] id now allowed w tt
  perform-Moved p (answering_interest actor id willing now) w allowed yes_move =
      respond-Safe p [] actor id willing now allowed w tt
  perform-Moved p (selecting actor id attempt now) w allowed yes_move =
      select_candidate-Safe N D p [] actor id attempt now allowed w tt
  perform-Moved p (confirming actor id now) w allowed yes_move =
      confirm_selection-Safe N D p [] actor id now allowed (yes_move refl) w tt
  perform-Moved p (refusing actor id reason now) w allowed yes_move =
      decline_confirmation-Safe N D p [] actor id now reason allowed w tt
  perform-Moved p (lapsing id now) w allowed yes_move =
      lapse_confirmation-Safe N D p [] id now allowed w tt
  perform-Moved p (accepting actor id now) w allowed yes_move =
      accept_offer-Safe p [] actor id now allowed (yes_move refl) w tt
  perform-Moved p (declining actor id reason note now) w allowed yes_move =
      decline_offer-Safe p [] actor id now reason note allowed w tt
  perform-Moved p (expiring_offer id now) w allowed yes_move =
      expire_offer-Safe p [] id now allowed w tt
  perform-Moved p (expiring_search id now) w allowed yes_move =
      expire_matching-Safe p [] id now allowed w tt
  perform-Moved p (assigning actor id expert reason now) w allowed yes_move =
      admin_assign-Safe N D p [] actor id expert reason now allowed w tt
  perform-Moved p (forcing actor id expert reason now) w allowed yes_move =
      admin_force_assign-Safe N D p [] actor id expert reason now allowed w tt
  perform-Moved p (withdrawing_stale stale now) w allowed yes_move =
      reconcile_stale_offers-Safe N D p [] stale now 0 allowed w tt
  perform-Moved p (recovering ids now) w allowed yes_move =
      recover_stalled_searches-Safe N D p [] ids now 0 allowed w tt
  perform-Moved p (reconciling lapsed now) w allowed yes_move =
      reconcile_lapsed-Safe N D p [] lapsed now 0 allowed w tt
  perform-Moved p (paying gateway actor id now) w allowed yes_move =
      pay-Safe p [] gateway actor id now allowed w tt

  perform_all-Moved :
      (p : Move → Bool) (calls : List Call) (w : World)
      → Allowed p
      → ((call : Call)
          → In call calls
          → is_consent call ≡ true
          → p (TransitionActor.expert, RequestState.accepted) ≡ true)
      → Moved p w (perform_all N D calls w)
  unfolding perform_all
  perform_all-Moved p [] w allowed yes_move = Moved-refl p w
  perform_all-Moved p (call ∷ calls) w allowed yes_move =
      Moved-trans p w (perform N D call w) (perform_all N D calls (perform N D call w))
        (perform-Moved p call w allowed (yes_move call (inl refl)))
        (perform_all-Moved p calls (perform N D call w) allowed (λ c i. yes_move c (inr i)))

  -- After any series of calls of the matching service and of checkout, whatever they answer or throw, a request that
  -- was there is still there, in a state that a series of moves legal by the transition table reaches
  -- from its first state, and with one more version for each of these moves.
  pub perform_all-replay :
      (calls : List Call) (w : World) (id : ℕ) (r : Request)
      → find_in id w.requests ≡ some r
      → (s : Request) × (find_in id (perform_all N D calls w).requests ≡ some s)
        × (moves : List Move) × (replay r.state moves ≡ some s.state)
        × (r.version + length moves ≡ s.version)
  perform_all-replay calls w id r found =
      let (s, f, (moves, a, h, v)) =
        (perform_all-Moved (λ m. true) calls w any_move (λ c i y. refl) id).0 r found in
      (s, f, moves, h, v)
    where
      any_move : Allowed (λ m. true)
      any_move = record { by_system = λ to. refl; by_customer = λ to. refl; by_admin = λ to. refl }

  -- Whatever is called of the matching service and of checkout, by whomever and in whatever order, manual assignment by
  -- an admin included: as long as no call is of `acceptOffer` or `confirmSelection`, a request to which
  -- no expert has committed is not in a committed state afterwards.
  pub perform_all-consent :
      (calls : List Call) (w : World) (id : ℕ) (r : Request)
      → any is_consent calls ≡ false
      → find_in id w.requests ≡ some r
      → is_committed r.state ≡ false
      → (s : Request) × (find_in id (perform_all N D calls w).requests ≡ some s)
        × (is_committed s.state ≡ false)
  perform_all-consent calls w id r silent found out =
      let (s, f, (moves, a, h, v)) =
        (perform_all-Moved is_not_expert calls w others
            (λ c i y. ground (arith, In→any is_consent calls c i y, silent)) id).0
          r found in
      (s, f, uncommitted moves r.state s.state out a h)
