-- ===== src/Service/Moving.antt =====
-- How one step of a method moves the table of requests, and the records that a method holds.
use salesforce_expert_suppor.Prelude.{
  ℕ, ◌≡◌, refl, Bool, true, some, List, [], ◌∷◌, ◌==◌, arith, Bool-cases, ==_iff, inl, inr, All,
}
use salesforce_expert_suppor.Contracts.{RequestState}
use salesforce_expert_suppor.Requests.Machine.{
  TransitionActor, TransitionRule, legal, assert_transition,
}
use salesforce_expert_suppor.Requests.History.{Move, replay}
use salesforce_expert_suppor.Service.World.{Request, World, find_in, update_request}
use salesforce_expert_suppor.Service.Monad.{Action, Result, ok, err, ◌>>=◌, and_then}
use salesforce_expert_suppor.Service.Requests.{moved, apply_found}
use salesforce_expert_suppor.Service.Follows.{
  Follows, Follows-version, Moved, Moved-refl, Moved-trans, Known, Known-Moved,
  update_request-Moved,
}

-- `p` tells the moves that may be made, `held` are the records in hand.
unfoldable pub Safe : {A : Type 0} → (Move → Bool) → List Request → Action A → Type 0
Safe p held m = (w : World) → All (Known p w) held → Moved p w (m w).1

pub All-Known-Moved :
    (p : Move → Bool) (held : List Request) (v w : World)
    → Moved p v w
    → All (Known p v) held
    → All (Known p w) held
All-Known-Moved p [] v w m h = tt
All-Known-Moved p (r ∷ held) v w m (k, h) =
    (Known-Moved p v w r m k, All-Known-Moved p held v w m h)

-- `p` allows every move of the system, of customers and of admins.
pub record Allowed (p : Move → Bool) : Type 0 where
  pub by_system : (to : RequestState) → p (TransitionActor.system, to) ≡ true
  pub by_customer : (to : RequestState) → p (TransitionActor.customer, to) ≡ true
  pub by_admin : (to : RequestState) → p (TransitionActor.admin, to) ≡ true

-- A record that is in hand.
pub data Held : Request → List Request → Type 0 where
  here : {r : Request} {held : List Request} → Held r (r ∷ held)
  there : {r s : Request} {held : List Request} → Held r held → Held r (s ∷ held)

pub Held-Known :
    (p : Move → Bool) (w : World) (r : Request) (held : List Request)
    → Held r held
    → All (Known p w) held
    → Known p w r
Held-Known p w r _ here (k, h) = k
Held-Known p w r _ (there i) (k, h) = Held-Known p w r _ i h

pub moved-Follows :
    (p : Move → Bool) (x : Request) (to : RequestState) (actor : TransitionActor)
    (rule : TransitionRule)
    → assert_transition x.state to actor ≡ legal rule
    → p (actor, to) ≡ true
    → Follows p x (moved to x)
unfolding replay
moved-Follows p x to actor rule h ok_move =
    ((actor, to) ∷ [], rw ok_move refl, rw (h, replay) refl, omega arith)

pub found_state :
    (rows : List Request) (id : ℕ) (s x : Request)
    → find_in id rows ≡ some s
    → find_in id rows ≡ some x
    → x.state ≡ s.state
found_state rows id s x h e = ground arith

-- The write of `applyTransition`, of a move that the table allows from the record in hand.
pub apply_found-Moved :
    (p : Move → Bool) (r s : Request) (to : RequestState) (actor : TransitionActor)
    (rule : TransitionRule) (w : World)
    → assert_transition r.state to actor ≡ legal rule
    → find_in r.id w.requests ≡ some s
    → Follows p r s
    → p (actor, to) ≡ true
    → Moved p w (apply_found r.id to r.version (some s) w).1
unfolding apply_found
apply_found-Moved p r s to actor rule w legal_move found follows ok_move =
    elim (Bool-cases (s.version == r.version)) [
      | inl y ↦ rw y (
          update_request-Moved p r.id (moved to) w
            (record w { requests = update_request r.id (moved to) w.requests }) (λ x. refl) refl
            (λ x e.
              moved-Follows p x to actor rule
                (rw
                  (
                    found_state w.requests r.id s x found e,
                    Follows-version p r s follows ((==_iff s.version r.version).0 y),
                  )
                  legal_move)
                ok_move))
      | inr n ↦ rw n (Moved-refl p w)
    ]

pub Moved-bind :
    {A B : Type 0} (p : Move → Bool) (m : Action A) (f : A → Action B) (w : World)
    → Moved p w (m w).1
    → ((a : A) (v : World) → Moved p w v → Moved p v (f a v).1)
    → Moved p w ((m >>= f) w).1
unfolding ◌>>=◌
Moved-bind {A = A} p m f w h k = after (m w).0 (m w).1 h
  where
    after : (r : Result A) (v : World) → Moved p w v → Moved p w (and_then r v f).1
    after (err e) v goes = goes
    after (ok a) v goes = Moved-trans p w v (f a v).1 goes (k a v goes)
