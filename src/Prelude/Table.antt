-- ===== src/Prelude/Table.antt =====
-- Tables of rules between states. The source keeps three of them, each as a list and as a `Map` from
-- `from→to` to the rule; what a lookup in such a map finds is the same for all three.
use mathlib.Core.Path.{◌≡◌, refl}
use mathlib.Core.Logic.{◌↔◌, inl, inr}
use mathlib.Core.Bool.{Bool, true, false, not, ◌&&◌}
use mathlib.Core.Option.{Option, none, some}
use mathlib.Core.List.{List, [], ◌∷◌, map}
use native.Mathlib.Omega.{arith}
use salesforce_expert_suppor.Prelude.Tests.{if◌then◌else◌}
use salesforce_expert_suppor.Prelude.Select.{
  In, same, any, select, select-In, In-select, In-map, map-In,
}

module _ {S R : Type 0} (d : Discrete S) (from to : R → S) where
  abbrev pub is_rule : S → S → R → Bool
  is_rule f t r = same d (from r) f && same d (to r) t

  -- A `Map` built from entries keeps the last one of each key.
  unfoldable pub index : List R → S → S → Option R
  index [] f t = none
  index (r ∷ rs) f t = elim (index rs f t) [
    | some later ↦ some later
    | none ↦ if is_rule f t r then some r else none
  ]

  -- The targets of the rules out of a state that pass a test.
  unfoldable pub targets : (R → Bool) → List R → S → List S
  targets p rs f = map to (select (λ r. same d (from r) f && p r) rs)

  -- No rule of the list has the key of a later one.
  unfoldable pub distinct_keys : List R → Bool
  distinct_keys [] = true
  distinct_keys (r ∷ rs) = not (any (is_rule (from r) (to r)) rs) && distinct_keys rs

  index-In :
      (rs : List R) (f t : S) (r : R) → index rs f t ≡ some r → In r rs × (from r ≡ f) × (to r ≡ t)
  unfolding index
  index-In [] f t r h = cc
  index-In (x ∷ rs) f t r h = ground (arith, index-In rs f t r)

  index_absent : (rs : List R) (f t : S) → any (is_rule f t) rs ≡ false → index rs f t ≡ none
  unfolding index
  index_absent [] f t h = refl
  index_absent (x ∷ rs) f t h = ground (arith, index_absent rs f t)

  index_present :
      (rs : List R) (r : R) → distinct_keys rs ≡ true → In r rs → index rs (from r) (to r) ≡ some r
  unfolding index distinct_keys
  index_present [] r h i = absurd i
  index_present (x ∷ rs) r h (inl e) = rw (← e) (ground (arith, index_absent rs (from x) (to x)))
  index_present (x ∷ rs) r h (inr i) = ground (arith, index_present rs r)

  -- With distinct keys a lookup finds exactly the rules of the list.
  pub index_iff :
      (rs : List R) (f t : S) (r : R)
      → distinct_keys rs ≡ true
      → (index rs f t ≡ some r) ↔ (In r rs × (from r ≡ f) × (to r ≡ t))
  index_iff rs f t r h = (index-In rs f t r, λ m. rw (← m.1, ← m.2) (index_present rs r h m.0))

  -- With distinct keys the list of targets and the lookup agree.
  pub targets_iff :
      (p : R → Bool) (rs : List R) (f t : S)
      → distinct_keys rs ≡ true
      → In t (targets p rs f) ↔ ((r : R) × (index rs f t ≡ some r) × (p r ≡ true))
  unfolding targets
  targets_iff p rs f t h = (
    λ m.
        let (r, i, e) = In-map to t _ m in
        let (j, b) = select-In (λ x. same d (from x) f && p x) rs r i in
        (r, (index_iff rs f t r h).1 (j, ground arith, e), ground arith),
    λ m.
        let (i, e, k) = (index_iff rs f t m.0 h).0 m.1 in
        rw (← k) (
          map-In to m.0 _
            (In-select (λ x. same d (from x) f && p x) rs m.0 i (ground (arith, m.2)))),
  )
