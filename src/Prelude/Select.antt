-- ===== src/Prelude/Select.antt =====
-- JavaScript's `filter`, `some`, `includes` and `find` over lists, with a test into `Bool`, and the
-- predicate of membership through which the other modules speak of them.
use Prim.Native.Nat.{◌≤◌}
use mathlib.Core.Path.{◌≡◌, refl, ap}
use mathlib.Core.Logic.{◌↔◌, ◌⊎◌, inl, inr, ite}
use mathlib.Core.Bool.{Bool, true, false, ◌&&◌, ◌||◌}
use mathlib.Core.Option.{Option, none, some}
use mathlib.Core.List.{List, [], ◌∷◌, map}
use native.Mathlib.Omega.{arith}
use salesforce_expert_suppor.Prelude.Tests.{if◌then◌else◌, Bool-cases}
use salesforce_expert_suppor.Prelude.Lists.{length}

-- `In a xs` gives the place of `a` in `xs`.
abbrev pub In : {A : Type 0} → A → List A → Type 0
In a [] = ⊥
In a (x ∷ xs) = (x ≡ a) ⊎ In a xs

abbrev pub All {ℓ κ} : {A : Type ℓ} → (A → Type κ) → List A → Type κ
All P [] = Unit
All P (x ∷ xs) = P x × All P xs

-- Is `a` the same value as `b`, for a type with decidable equality?
abbrev pub same {ℓ} : {A : Type ℓ} → Discrete A → A → A → Bool
same d a b = ite (d a b) true false

pub same→eq {ℓ} : {A : Type ℓ} (d : Discrete A) (a b : A) → same d a b ≡ true → a ≡ b
same→eq d a b h = ground arith

pub same_refl {ℓ} : {A : Type ℓ} (d : Discrete A) (a : A) → same d a a ≡ true
same_refl d a = ground arith

module _ {A : Type 0} where
  abbrev pub select : (A → Bool) → List A → List A
  select p [] = []
  select p (x ∷ xs) = if p x then x ∷ select p xs else select p xs

  abbrev pub any : (A → Bool) → List A → Bool
  any p [] = false
  any p (x ∷ xs) = p x || any p xs

  abbrev pub all : (A → Bool) → List A → Bool
  all p [] = true
  all p (x ∷ xs) = p x && all p xs

  abbrev pub find_first : (A → Bool) → List A → Option A
  find_first p [] = none
  find_first p (x ∷ xs) = if p x then some x else find_first p xs

  abbrev pub includes : Discrete A → A → List A → Bool
  includes d a xs = any (λ x. same d x a) xs

  pub select-In : (p : A → Bool) (xs : List A) (a : A) → In a (select p xs) → In a xs × (p a ≡ true)
  select-In p [] a h = absurd h
  select-In p (x ∷ xs) a h = ground (arith, select-In p xs a)

  pub In-select : (p : A → Bool) (xs : List A) (a : A) → In a xs → p a ≡ true → In a (select p xs)
  In-select p [] a h t = absurd h
  In-select p (x ∷ xs) a h t = ground (arith, In-select p xs a)

  pub length-select-le : (p : A → Bool) (xs : List A) → length (select p xs) ≤ length xs
  length-select-le p [] = omega arith
  length-select-le p (x ∷ xs) = ground (arith, length-select-le p xs)

  pub any→In : (p : A → Bool) (xs : List A) → any p xs ≡ true → (a : A) × In a xs × (p a ≡ true)
  any→In p [] h = cc
  any→In p (x ∷ xs) h = elim (Bool-cases (p x)) [
    | inl e ↦ (x, inl refl, e)
    | inr e ↦ let (a, i, t) = any→In p xs (ground arith) in (a, inr i, t)
  ]

  pub In→any : (p : A → Bool) (xs : List A) (a : A) → In a xs → p a ≡ true → any p xs ≡ true
  In→any p [] a h t = absurd h
  In→any p (x ∷ xs) a h t = ground (arith, In→any p xs a)

  pub all-In : (p : A → Bool) (xs : List A) (a : A) → all p xs ≡ true → In a xs → p a ≡ true
  all-In p [] a h i = absurd i
  all-In p (x ∷ xs) a h i = ground (arith, all-In p xs a)

  pub includes_iff : (d : Discrete A) (a : A) (xs : List A) → (includes d a xs ≡ true) ↔ In a xs
  includes_iff d a [] = (λ h. cc, λ h. absurd h)
  includes_iff d a (x ∷ xs) = ground (arith, includes_iff d a xs)

  pub find_first-In :
      (p : A → Bool) (xs : List A) (a : A) → find_first p xs ≡ some a → In a xs × (p a ≡ true)
  find_first-In p [] a h = cc
  find_first-In p (x ∷ xs) a h = ground (arith, find_first-In p xs a)

  pub find_first-none :
      (p : A → Bool) (xs : List A) (a : A) → find_first p xs ≡ none → In a xs → p a ≡ false
  find_first-none p [] a h i = absurd i
  find_first-none p (x ∷ xs) a h i = ground (arith, find_first-none p xs a)

module _ {A B : Type 0} (f : A → B) where
  pub In-map : (b : B) (xs : List A) → In b (map f xs) → (a : A) × In a xs × (f a ≡ b)
  In-map b [] h = absurd h
  In-map b (x ∷ xs) (inl e) = (x, inl refl, e)
  In-map b (x ∷ xs) (inr i) = let (a, j, e) = In-map b xs i in (a, inr j, e)

  pub map-In : (a : A) (xs : List A) → In a xs → In (f a) (map f xs)
  map-In a [] h = absurd h
  map-In a (x ∷ xs) (inl e) = inl (ap f e)
  map-In a (x ∷ xs) (inr i) = inr (map-In a xs i)
