-- ===== src/Service/Shortlisted.antt =====
-- An attempt that was settled is on no shortlist.
use salesforce_expert_suppor.Prelude.{
  ℕ, ◌≡◌, refl, sym, ◌∙◌, Bool, true, false, ◌&&◌, ◌||◌, Option, none, some, List, ◌==◌, ==_iff,
  arith, Bool-cases, Option-cases, inl, inr, In, find_first, find_first-In, select, select-In,
  sort_by, In-sort_by,
}
use salesforce_expert_suppor.Contracts.{AttemptStatus, AttemptStatus-discrete, DeclineReasonCode}
use salesforce_expert_suppor.Dispatch.Attempts.{Attempt, has_status, patch}
use salesforce_expert_suppor.Dispatch.Store.{Store, find_attempt}
use salesforce_expert_suppor.Dispatch.Counting.{distinct_ids, distinct_ids-patch}
use salesforce_expert_suppor.Dispatch.Offers.{find_attempt-patch}
use salesforce_expert_suppor.Dispatch.Pool.{
  Settlement, settle_accepted, settle_timed_out, settle_declined, settled, settle_confirmation,
  list_shortlisted, by_rank,
}
use salesforce_expert_suppor.Service.Interest.{lapse_from}
use salesforce_expert_suppor.Service.Offering.{find_attempt-In}

abbrev pub settled_attempt : Settlement → ℕ → Option DeclineReasonCode → Attempt → Attempt
settled_attempt to now reason a = record a {
  status = settled to;
  responded_at = some now;
  decline_reason = reason;
}

abbrev pub is_listed : Attempt → Bool
is_listed a = has_status AttemptStatus.shortlisted a || has_status AttemptStatus.confirming a

pub settled_unlisted :
    (to : Settlement) (now : ℕ) (reason : Option DeclineReasonCode) (a : Attempt)
    → is_listed (settled_attempt to now reason a) ≡ false
unfolding AttemptStatus-discrete
settled_unlisted settle_accepted now reason a = refl
settled_unlisted settle_timed_out now reason a = refl
settled_unlisted settle_declined now reason a = refl

pub same_found :
    (xs : List Attempt) (m n : ℕ) (b c : Attempt)
    → find_attempt m xs ≡ some b
    → find_attempt n xs ≡ some c
    → m ≡ n
    → b ≡ c
same_found xs m n b c f g e = cc

-- The attempt that was settled is the only one of its id, and neither shortlisted nor confirming.
pub settled_off :
    (id : ℕ) (to : Settlement) (now : ℕ) (reason : Option DeclineReasonCode) (xs : List Attempt)
    (a b : Attempt)
    → distinct_ids xs ≡ true
    → find_attempt id xs ≡ some a
    → In b (patch id (settled_attempt to now reason) xs)
    → is_listed b ≡ true
    → (b.id == id) ≡ false
settled_off id to now reason xs a b d f i s = elim (Bool-cases (b.id == id)) [
  | inr n ↦ n
  | inl y ↦
      let change = settled_attempt to now reason in
      let after = patch id change xs in
      let at = find_attempt-In after b (distinct_ids-patch id change xs (λ c. refl) ∙ d) i in
      let first = find_attempt-patch id change a xs (λ c. refl) f in
      let e = same_found after b.id id b (change a) at first ((==_iff b.id id).0 y) in
      let off = settled_unlisted to now reason a in absurd (clash b (change a) e s off)
]
  where
    clash : (b c : Attempt) → b ≡ c → is_listed b ≡ true → is_listed c ≡ false → ⊥
    clash b c e s off = cc

pub settle_off :
    (id expert : ℕ) (to : Settlement) (now : ℕ) (reason : Option DeclineReasonCode) (s : Store)
    (a b : Attempt) (request : ℕ)
    → distinct_ids s.attempts ≡ true
    → (settle_confirmation id expert to now none reason s).0 ≡ some a
    → In b (list_shortlisted request (settle_confirmation id expert to now none reason s).1)
    → (b.id == id) ≡ false
unfolding settle_confirmation list_shortlisted
settle_off id expert to now reason s a b request d h i =
    elim (Option-cases
      (find_first (λ c. (c.id == id) && has_status AttemptStatus.confirming c) s.attempts)) [
        | inl f ↦ ground arith
        | inr (c, f) ↦
            let (j, e) =
              find_first-In (λ x. (x.id == id) && has_status AttemptStatus.confirming x) s.attempts
                c f in
            let (k, l) =
              listed (patch c.id (settled_attempt to now reason) s.attempts)
                (rw (f, settle_confirmation) at i) in
            let off =
              settled_off c.id to now reason s.attempts c b d (find_attempt-In s.attempts c d j) k
                l in
            rw (sym (same_id c e)) off
      ]
  where
    listed :
        (xs : List Attempt)
        → In b (sort_by by_rank (select (λ a. (a.support_request_id == request) && is_listed a) xs))
        → In b xs × (is_listed b ≡ true)
    listed xs h =
        let (j, e) =
          select-In (λ a. (a.support_request_id == request) && is_listed a) xs b
            ((In-sort_by by_rank b _).0 h) in
        (j, ground arith)

    same_id :
        (c : Attempt) → ((c.id == id) && has_status AttemptStatus.confirming c) ≡ true → c.id ≡ id
    same_id c e = ground (arith, ==_iff c.id id)

pub unlisted-lapse_from :
    (list : List Attempt) (id : ℕ)
    → ((b : Attempt) → In b list → (b.id == id) ≡ false)
    → (lapse_from list id).exhausted ≡ false
unlisted-lapse_from list id off = elim (Option-cases (find_first (λ a. a.id == id) list)) [
  | inl n ↦ rw (n, lapse_from) refl
  | inr (b, f) ↦ let (i, e) = find_first-In (λ a. a.id == id) list b f in absurd (clash (off b i) e)
]
  where
    clash : {c : Bool} → c ≡ false → c ≡ true → ⊥
    clash n y = cc
