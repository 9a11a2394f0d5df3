-- ===== src/Checkout/Endings.antt =====
-- What holds by the end of a method, however it ends, and the methods that leave the money alone.
use salesforce_expert_suppor.Prelude.{
  ℕ, ◌≡◌, refl, sym, ap, ◌∙◌, Bool, true, false, Option, none, some, arith, Bool-cases,
  Option-cases, inl, inr,
}
use salesforce_expert_suppor.Contracts.{RequestState}
use salesforce_expert_suppor.Requests.Machine.{system, Asserted, legal, illegal, assert_transition}
use salesforce_expert_suppor.Authorization.Policy.{Actor, Permission}
use salesforce_expert_suppor.Checkout.Checkouts.{is_owner, require_own_request}
use salesforce_expert_suppor.Service.World.{World, Request, find_in}
use salesforce_expert_suppor.Service.Monad.{
  Action, Result, ok, err, Error, ◌>>=◌, and_then, branch, on_option, pure, raise, reads, or_raise,
  raise_if,
}
use salesforce_expert_suppor.Service.Requests.{
  find_request, transition, check_transition, asserted, apply_transition, apply_found,
}
use salesforce_expert_suppor.Service.Responses.{require_permission, permitted}

-- What holds after a sequence, if it holds after each way to end it.
pub ends_with :
    {A B : Type 0} (m : Action A) (f : A → Action B) (w : World) (P : World → Type 0)
    → ((e : Error) → P (m w).1)
    → ((a : A) → (m w).0 ≡ ok a → P (f a (m w).1).1)
    → P ((m >>= f) w).1
unfolding ◌>>=◌
ends_with {A = A} m f w P h k = after (m w).0 (m w).1 refl (h Error.internal) k
  where
    after :
        (r : Result A) (u : World)
        → (m w).0 ≡ r
        → P u
        → ((a : A) → (m w).0 ≡ ok a → P (f a u).1)
        → P (and_then r u f).1
    after (ok a) u e h k = k a e
    after (err x) u e h k = h

pub branch_ends :
    {A : Type 0} (c : Bool) (m n : Action A) (w : World) (P : World → Type 0)
    → P (m w).1
    → P (n w).1
    → P (branch c m n w).1
unfolding branch
branch_ends true m n w P h k = h
branch_ends false m n w P h k = k

pub on_option_ends :
    {A B : Type 0} (o : Option A) (m : Action B) (f : A → Action B) (w : World) (P : World → Type 0)
    → P (m w).1
    → ((a : A) → P (f a w).1)
    → P (on_option o m f w).1
unfolding on_option
on_option_ends none m f w P h k = h
on_option_ends (some a) m f w P h k = k a

pub require_permission_reads :
    (actor : Actor) (p : Permission) (w : World) → (require_permission actor p w).1 ≡ w
unfolding require_permission permitted pure raise
require_permission_reads actor p w = ground arith

pub require_own_request_reads :
    (actor : Actor) (id : ℕ) (w : World) → (require_own_request actor id w).1 ≡ w
unfolding require_own_request find_request reads or_raise raise_if pure ◌>>=◌
require_own_request_reads actor id w = elim (Option-cases (find_in id w.requests)) [
  | inl n ↦ rw (n, or_raise) refl
  | inr (r, f) ↦ elim (Bool-cases (is_owner actor.customer_profile_id r)) [
    | inl y ↦ rw (f, or_raise, y, raise_if) refl
    | inr n ↦ rw (f, or_raise, n, raise_if) refl
  ]
]

pub require_own_request_ok :
    (actor : Actor) (id : ℕ) (w : World) (r : Request)
    → (require_own_request actor id w).0 ≡ ok r
    → (find_in id w.requests ≡ some r) × (is_owner actor.customer_profile_id r ≡ true)
unfolding require_own_request find_request reads or_raise raise_if pure ◌>>=◌
require_own_request_ok actor id w r h = elim (Option-cases (find_in id w.requests)) [
  | inl n ↦ absurd (ok_not_err (rw (n, or_raise) at h))
  | inr (x, f) ↦ elim (Bool-cases (is_owner actor.customer_profile_id x)) [
    | inl y ↦
        let e = ok_same (rw (f, or_raise, y, raise_if) at h) in
        (f ∙ ap some e, ap (is_owner actor.customer_profile_id) (sym e) ∙ y)
    | inr n ↦ absurd (ok_not_err (rw (f, or_raise, n, raise_if) at h))
  ]
]
  where
    ok_not_err : {e : Error} → err e ≡ ok r → ⊥
    ok_not_err e = ground arith

    ok_same : {x : Request} → Result.ok x ≡ ok r → x ≡ r
    ok_same e = ground arith

pub or_raise_reads : {A : Type 0} (o : Option A) (e : Error) (w : World) → (or_raise o e w).1 ≡ w
unfolding or_raise
or_raise_reads none e w = refl
or_raise_reads (some a) e w = refl

pub apply_found_charges :
    (id : ℕ) (to : RequestState) (expected : ℕ) (o : Option Request) (w : World)
    → (apply_found id to expected o w).1.charges ≡ w.charges
unfolding apply_found
apply_found_charges id to expected o w = ground arith

pub asserted_reads : (a : Asserted) (w : World) → (asserted a w).1 ≡ w
unfolding asserted pure raise
asserted_reads (legal rule) w = refl
asserted_reads (illegal why) w = refl

pub transition_charges :
    (r : Request) (to : RequestState) (w : World) → (transition r to system w).1.charges ≡ w.charges
unfolding transition check_transition apply_transition
transition_charges r to w =
    let checked = asserted_reads (assert_transition r.state to system) w in
    let checked_charges = ap (λ v. v.charges) checked in
    ends_with (asserted (assert_transition r.state to system)) _ w (λ v. v.charges ≡ w.charges)
      (λ e. checked_charges)
      (λ t e.
        let u = (asserted (assert_transition r.state to system) w).1 in
        let kept =
          apply_found_charges r.id to r.version (find_in r.id u.requests) u ∙ checked_charges in
        ends_with (apply_transition r.id to r.version) _ u (λ v. v.charges ≡ w.charges) (λ e. kept)
          (λ o e. ap (λ v. v.charges) (or_raise_reads o Error.conflict _) ∙ kept))
