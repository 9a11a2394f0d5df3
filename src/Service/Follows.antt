-- ===== src/Service/Follows.antt =====
-- How a method of the service may change the table of requests: each row by legal moves alone, with
-- one more version for each, as `applyTransition` of
-- packages/domain/src/support-requests/in-memory-request-world.ts writes them.
use salesforce_expert_suppor.Prelude.{
  ℕ, ◌+◌, ◌≡◌, refl, sym, ◌∙◌, Bool, true, false, Option, none, some, List, [], ◌∷◌, ◌++◌, ◌==◌,
  arith, length, length-append, Bool-cases, ==_iff, inl, inr, all,
}
use salesforce_expert_suppor.Contracts.{RequestState}
use salesforce_expert_suppor.Requests.Machine.{assert_transition}
use salesforce_expert_suppor.Requests.History.{Move, replay, Asserted-cases}
use salesforce_expert_suppor.Service.World.{Request, World, find_in, update_request}

-- A row's later self: some legal moves on, all of them allowed, and as many versions.
abbrev pub Follows : (Move → Bool) → Request → Request → Type 0
Follows allowed r s =
    (moves : List Move) × (all allowed moves ≡ true)
    × (replay r.state moves ≡ some s.state)
    × (r.version + length moves ≡ s.version)

pub replay-append :
    (moves more : List Move) (s t : RequestState)
    → replay s moves ≡ some t
    → replay s (moves ++ more) ≡ replay t more
unfolding replay
replay-append [] more s t h = ground arith
replay-append ((actor, to) ∷ moves) more s t h =
    elim (Asserted-cases (assert_transition s to actor)) [
      | inl (r, e) ↦ rw (e, replay) (replay-append moves more to t (rw (e, replay) at h))
      | inr (why, e) ↦ ground arith
    ]

pub Follows-refl : (p : Move → Bool) (r : Request) → Follows p r r
unfolding replay
Follows-refl p r = ([], refl, refl, ground arith)

all-append :
    (p : Move → Bool) (xs ys : List Move)
    → all p xs ≡ true
    → all p ys ≡ true
    → all p (xs ++ ys) ≡ true
all-append p [] ys h k = k
all-append p (x ∷ xs) ys h k = ground (arith, all-append p xs ys)

pub Follows-trans :
    (p : Move → Bool) (r s t : Request) → Follows p r s → Follows p s t → Follows p r t
Follows-trans p r s t (moves, a, h, v) (more, b, k, w) = (
  moves ++ more,
  all-append p moves more a b,
  replay-append moves more r.state s.state h ∙ k,
  omega (arith, length-append moves more),
)

-- A row that has not gained a version has not moved.
pub Follows-version :
    (p : Move → Bool) (r s : Request) → Follows p r s → s.version ≡ r.version → s.state ≡ r.state
unfolding replay
Follows-version p r s ([], a, h, v) e = ground arith
Follows-version p r s (m ∷ moves, a, h, v) e = ground arith

-- Every row of `v` is still there in `w`, and has followed the table; no row is new.
abbrev pub Moved : (Move → Bool) → World → World → Type 0
Moved p v w =
    (id : ℕ)
    → ((r : Request)
        → find_in id v.requests ≡ some r
        → (s : Request) × (find_in id w.requests ≡ some s) × Follows p r s)
      × (find_in id v.requests ≡ none → find_in id w.requests ≡ none)

pub Moved-refl : (p : Move → Bool) (w : World) → Moved p w w
Moved-refl p w id = ((λ r h. (r, h, Follows-refl p r)), λ h. h)

pub Moved-trans : (p : Move → Bool) (u v w : World) → Moved p u v → Moved p v w → Moved p u w
Moved-trans p u v w h k id = (
  λ r f.
      let (s, g, x) = (h id).0 r f in
      let (t, i, y) = (k id).0 s g in (t, i, Follows-trans p r s t x y),
  λ n. (k id).1 ((h id).1 n),
)

-- A record in hand, read a while ago perhaps: the row of its id has followed it.
abbrev pub Known : (Move → Bool) → World → Request → Type 0
Known p w r = (s : Request) × (find_in r.id w.requests ≡ some s) × Follows p r s

pub Known-Moved :
    (p : Move → Bool) (v w : World) (r : Request) → Moved p v w → Known p v r → Known p w r
Known-Moved p v w r m (s, h, x) =
    let (t, k, y) = (m r.id).0 s h in (t, k, Follows-trans p r s t x y)

pub find_in-id : (id : ℕ) (rows : List Request) (r : Request) → find_in id rows ≡ some r → r.id ≡ id
find_in-id id [] r h = ground arith
find_in-id id (x ∷ rows) r h = elim (Bool-cases (x.id == id)) [
  | inl y ↦ ground (arith, (==_iff x.id id).0 y)
  | inr n ↦ find_in-id id rows r (rw n at h)
]

pub find_at :
    (rows : List Request) (a b : ℕ) {o : Option Request}
    → a ≡ b
    → find_in b rows ≡ o
    → find_in a rows ≡ o
find_at rows a b e f = rw e f

pub Known-found :
    (p : Move → Bool) (id : ℕ) (w : World) (r : Request)
    → find_in id w.requests ≡ some r
    → Known p w r
Known-found p id w r h =
    (r, find_at w.requests r.id id (find_in-id id w.requests r h) h, Follows-refl p r)

module _ (id : ℕ) (change : Request → Request)
    (same_id : (r : Request) → (change r).id ≡ r.id) where
  pub find_in-update_same :
      (rows : List Request) (r : Request)
      → find_in id rows ≡ some r
      → find_in id (update_request id change rows) ≡ some (change r)
  unfolding update_request
  find_in-update_same [] r h = ground arith
  find_in-update_same (x ∷ rows) r h = ground (arith, find_in-update_same rows r, same_id x)

  pub find_in-update_other :
      (rows : List Request) (other : ℕ)
      → (other == id) ≡ false
      → find_in other (update_request id change rows) ≡ find_in other rows
  unfolding update_request
  find_in-update_other [] other n = refl
  find_in-update_other (x ∷ rows) other n =
      ground (arith, find_in-update_other rows other n, same_id x)

  pub find_in-update_none :
      (rows : List Request) (other : ℕ)
      → find_in other rows ≡ none
      → find_in other (update_request id change rows) ≡ none
  unfolding update_request
  find_in-update_none [] other n = refl
  find_in-update_none (x ∷ rows) other n = ground (arith, find_in-update_none rows other, same_id x)

-- A change of one row that goes by the table moves the table.
pub update_request-Moved :
    (p : Move → Bool) (id : ℕ) (change : Request → Request) (v w : World)
    → ((r : Request) → (change r).id ≡ r.id)
    → w.requests ≡ update_request id change v.requests
    → ((r : Request) → find_in id v.requests ≡ some r → Follows p r (change r))
    → Moved p v w
update_request-Moved p id change v w same_id e follows other = (
  λ r h. elim (Bool-cases (other == id)) [
    | inl y ↦
        let at = (==_iff other id).0 y in
        let found = find_at v.requests id other (sym at) h in
        (
          change r,
          find_at w.requests other id at
              (rw e (find_in-update_same id change same_id v.requests r found)),
          follows r found,
        )
    | inr n ↦
        (r, rw (e, find_in-update_other id change same_id v.requests other n) h, Follows-refl p r)
  ],
  λ n. rw e (find_in-update_none id change same_id v.requests other n),
)
