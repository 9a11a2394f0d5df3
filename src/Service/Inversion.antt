-- ===== src/Service/Inversion.antt =====
-- What is known of a method that went well: so did its parts, and what they have read and written.
use salesforce_expert_suppor.Prelude.{
  ℕ, ◌≡◌, refl, sym, ap, ◌∙◌, Bool, true, false, not, Option, none, some, arith,
}
use salesforce_expert_suppor.Contracts.{RequestState}
use salesforce_expert_suppor.Requests.Machine.{
  TransitionActor, Asserted, legal, illegal, assert_transition,
}
use salesforce_expert_suppor.Authorization.Policy.{Actor, Permission}
use salesforce_expert_suppor.Dispatch.Attempts.{Attempt}
use salesforce_expert_suppor.Dispatch.Store.{find_attempt}
use salesforce_expert_suppor.Service.World.{World, Request, find_in, update_request}
use salesforce_expert_suppor.Service.Monad.{
  Action, Result, ok, err, Error, ◌>>=◌, and_then, pure, raise, reads, or_raise, raise_if,
}
use salesforce_expert_suppor.Service.Requests.{
  require_request, find_request, transition, assign_expert, apply_transition, apply_found,
  check_transition, asserted, moved,
}
use salesforce_expert_suppor.Service.Responses.{
  require_permission, require_own_attempt, find_attempt_by_id, owns, permitted,
}
use salesforce_expert_suppor.Service.Follows.{find_in-update_same}

-- A sequence that went well: so did its first part.
pub bind_ok :
    {A B : Type 0} (m : Action A) (f : A → Action B) (w v : World) (b : B) (P : Type 0)
    → (m >>= f) w ≡ (ok b, v)
    → ((a : A) (u : World) → m w ≡ (ok a, u) → f a u ≡ (ok b, v) → P)
    → P
unfolding ◌>>=◌
bind_ok {A = A} m f w v b P h k = after (m w).0 (m w).1 refl h
  where
    after : (r : Result A) (u : World) → m w ≡ (r, u) → and_then r u f ≡ (ok b, v) → P
    after (ok a) u e h = k a u e h
    after (err x) u e h = ground arith

pub raise_if_ok :
    (c : Bool) (e : Error) (w v : World) (t : Unit {0})
    → raise_if c e w ≡ (ok t, v)
    → (c ≡ false) × (v ≡ w)
unfolding raise_if
raise_if_ok c e w v t h = ground arith

pub or_raise_ok :
    {A : Type 0} (o : Option A) (e : Error) (w v : World) (a : A)
    → or_raise o e w ≡ (ok a, v)
    → (o ≡ some a) × (v ≡ w)
unfolding or_raise
or_raise_ok none e w v a h = ground arith
or_raise_ok (some b) e w v a h = ground arith

pub require_request_ok :
    (id : ℕ) (w v : World) (r : Request)
    → require_request id w ≡ (ok r, v)
    → (find_in id w.requests ≡ some r) × (v ≡ w)
unfolding require_request find_request reads ◌>>=◌
require_request_ok id w v r h = or_raise_ok (find_in id w.requests) Error.not_found w v r h

pub require_own_attempt_ok :
    (actor : Actor) (id : ℕ) (w v : World) (a : Attempt)
    → require_own_attempt actor id w ≡ (ok a, v)
    → (find_attempt id w.store.attempts ≡ some a) × (owns actor.expert a ≡ true) × (v ≡ w)
unfolding require_own_attempt find_attempt_by_id reads pure
require_own_attempt_ok actor id w v a h =
    bind_ok (find_attempt_by_id id) _ w v a _ h (λ found u e k.
      bind_ok (or_raise found Error.not_found) _ u v a _ k (λ b x f l.
        bind_ok (raise_if (not (owns actor.expert b)) Error.forbidden) _ x v a _ l (λ t y q r.
          ground (
            arith,
            or_raise_ok found Error.not_found u x b f,
            raise_if_ok (not (owns actor.expert b)) Error.forbidden x y t q,
          ))))

pub require_permission_ok :
    (actor : Actor) (p : Permission) (w v : World) (t : Unit {0})
    → require_permission actor p w ≡ (ok t, v)
    → v ≡ w
unfolding require_permission permitted pure raise
require_permission_ok actor p w v t h = ground arith

pub apply_found_ok :
    (id : ℕ) (to : RequestState) (expected : ℕ) (w v : World) (x y : Request)
    → apply_found id to expected (some y) w ≡ (ok (some x), v)
    → v.requests ≡ update_request id (moved to) w.requests
unfolding apply_found
apply_found_ok id to expected w v x y h = ground arith

pub apply_transition_ok :
    (id : ℕ) (to : RequestState) (expected : ℕ) (w v : World) (x y : Request)
    → find_in id w.requests ≡ some y
    → apply_transition id to expected w ≡ (ok (some x), v)
    → find_in id v.requests ≡ some (moved to y)
unfolding apply_transition
apply_transition_ok id to expected w v x y f h =
    rw (apply_found_ok id to expected w v x y (rw f at h))
      (find_in-update_same id (moved to) (λ r. refl) w.requests y f)

pub asserted_ok : (a : Asserted) (w v : World) (t : Unit {0}) → asserted a w ≡ (ok t, v) → v ≡ w
unfolding asserted pure raise
asserted_ok (legal rule) w v t h = ground arith
asserted_ok (illegal why) w v t h = ground arith

-- A transition that went through has written its state to the row of its id.
pub transition_ok :
    (r x y : Request) (to : RequestState) (actor : TransitionActor) (w v : World)
    → find_in r.id w.requests ≡ some y
    → transition r to actor w ≡ (ok x, v)
    → find_in r.id v.requests ≡ some (moved to y)
unfolding transition check_transition
transition_ok r x y to actor w v f h =
    bind_ok (asserted (assert_transition r.state to actor)) _ w v x _ h (λ t u e k.
      bind_ok (apply_transition r.id to r.version) _ u v x _ k (λ o z g l.
        let (e', at) = or_raise_ok o Error.conflict z v x l in
        let same_world = asserted_ok (assert_transition r.state to actor) w u t e in
        rw at (apply_transition_ok r.id to r.version u z x y (rw same_world f) (rw e' at g))))

-- `complete_run` and the store's operations leave the requests alone, `assign_expert` names the expert.
pub assign_expert_ok :
    (id expert : ℕ) (w v : World) (y : Request) (t : Unit {0})
    → find_in id w.requests ≡ some y
    → assign_expert id expert w ≡ (ok t, v)
    → find_in id v.requests ≡ some (record y { assigned_expert_id = some expert })
unfolding assign_expert
assign_expert_ok id expert w v y t f h = rw (written h) (
    find_in-update_same id (λ r. record r { assigned_expert_id = some expert }) (λ r. refl)
      w.requests y f)
  where
    written :
        assign_expert id expert w ≡ (ok t, v)
        → v.requests
          ≡ update_request id (λ r. record r { assigned_expert_id = some expert }) w.requests
    written e = ground arith

pub still_found :
    (id : ℕ) (w v : World) (o : Option Request)
    → v.requests ≡ w.requests
    → find_in id w.requests ≡ o
    → find_in id v.requests ≡ o
still_found id w v o e f = rw e f

pub quiet_ok :
    {A : Type 0} (m : Action A) (w v : World) (a : A)
    → ((u : World) → (m u).1.requests ≡ u.requests)
    → m w ≡ (ok a, v)
    → v.requests ≡ w.requests
quiet_ok m w v a q h = ap (λ x. x.1.requests) (sym h) ∙ q w
