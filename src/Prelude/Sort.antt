-- ===== src/Prelude/Sort.antt =====
-- A stable sort by a strict comparison, as `Array.prototype.sort` is, and the lexicographic product
-- of comparisons. `before x y` stands for a negative answer of the comparator on `x` and `y`.
use Prim.Native.Nat.{ℕ, zero, suc}
use mathlib.Core.Path.{◌≡◌, refl, ◌∙◌, ap, transport}
use mathlib.Core.Logic.{◌↔◌, ◌⊎◌, inl, inr}
use mathlib.Core.Bool.{Bool, true, false}
use mathlib.Core.List.{List, [], ◌∷◌, ◌++◌}
use native.Mathlib.Omega.{arith}
use salesforce_expert_suppor.Prelude.Tests.{if◌then◌else◌, Bool-cases}
use salesforce_expert_suppor.Prelude.Lists.{length, take}
use salesforce_expert_suppor.Prelude.Select.{In, All}

-- The lexicographic product: `q` decides where `p` says neither.
abbrev pub lex : {A : Type 0} → (A → A → Bool) → (A → A → Bool) → A → A → Bool
lex p q x y = if p x y then true else if p y x then false else q x y

module _ {A : Type 0} where
  abbrev pub insert_by : (A → A → Bool) → A → List A → List A
  insert_by before x [] = x ∷ []
  insert_by before x (y ∷ ys) = if before y x then y ∷ insert_by before x ys else x ∷ y ∷ ys

  abbrev pub sort_by : (A → A → Bool) → List A → List A
  sort_by before [] = []
  sort_by before (x ∷ xs) = insert_by before x (sort_by before xs)

  -- A strict weak order, on a comparison into `Bool`.
  pub record WeakOrder (before : A → A → Bool) : Type 0 where
    pub asymm : (x y : A) → before x y ≡ true → before y x ≡ false
    pub cotrans : (x y z : A) → before x y ≡ false → before y z ≡ false → before x z ≡ false

  -- Nothing later comes before anything earlier.
  abbrev pub Sorted : (A → A → Bool) → List A → Type 0
  Sorted before [] = Unit
  Sorted before (x ∷ xs) = All (λ y. before y x ≡ false) xs × Sorted before xs

  pub lex-WeakOrder : (p q : A → A → Bool) → WeakOrder p → WeakOrder q → WeakOrder (lex p q)
  lex-WeakOrder p q P Q = record {
    asymm = λ x y h. ground (arith, P.asymm x y, P.asymm y x, Q.asymm x y);
    cotrans = λ x y z h k. ground (
      arith,
      P.asymm x y,
      P.asymm y x,
      P.asymm y z,
      P.asymm z y,
      P.asymm x z,
      P.asymm z x,
      P.cotrans x y z,
      P.cotrans y z x,
      P.cotrans z x y,
      P.cotrans y x z,
      P.cotrans x z y,
      P.cotrans z y x,
      Q.cotrans x y z,
    );
  }

  pub In-insert_by :
      (before : A → A → Bool) (x a : A) (ys : List A)
      → In a (insert_by before x ys) ↔ ((x ≡ a) ⊎ In a ys)
  In-insert_by before x a [] = ground arith
  In-insert_by before x a (y ∷ ys) = ground (arith, In-insert_by before x a ys)

  pub In-sort_by :
      (before : A → A → Bool) (a : A) (xs : List A) → In a (sort_by before xs) ↔ In a xs
  In-sort_by before a [] = (λ h. h, λ h. h)
  In-sort_by before a (x ∷ xs) =
      ground (arith, In-insert_by before x a (sort_by before xs), In-sort_by before a xs)

  pub length-insert_by :
      (before : A → A → Bool) (x : A) (ys : List A)
      → length (insert_by before x ys) ≡ suc (length ys)
  length-insert_by before x [] = refl
  length-insert_by before x (y ∷ ys) = ground (arith, length-insert_by before x ys)

  pub length-sort_by :
      (before : A → A → Bool) (xs : List A) → length (sort_by before xs) ≡ length xs
  length-sort_by before [] = refl
  length-sort_by before (x ∷ xs) =
      length-insert_by before x (sort_by before xs) ∙ ap (λ n. suc n) (length-sort_by before xs)

  pub All-In : (P : A → Type 0) (xs : List A) (a : A) → All P xs → In a xs → P a
  All-In P [] a h i = absurd i
  All-In P (x ∷ xs) a (p, ps) (inl e) = transport (λ i. P (e i)) p
  All-In P (x ∷ xs) a (p, ps) (inr i) = All-In P xs a ps i

  pub In-All : (P : A → Type 0) (xs : List A) → ((a : A) → In a xs → P a) → All P xs
  In-All P [] h = tt
  In-All P (x ∷ xs) h = (h x (inl refl), In-All P xs (λ a i. h a (inr i)))

  pub insert_by-Sorted :
      (before : A → A → Bool) (W : WeakOrder before) (x : A) (ys : List A)
      → Sorted before ys
      → Sorted before (insert_by before x ys)
  insert_by-Sorted before W x [] h = (tt, tt)
  insert_by-Sorted before W x (y ∷ ys) (h, t) = elim (Bool-cases (before y x)) [
    | inl e ↦ rw e (
      In-All _ (insert_by before x ys) (λ a i. elim ((In-insert_by before x a ys).0 i) [
        | inl s ↦ transport (λ j. before (s j) y ≡ false) (W.asymm y x e)
        | inr j ↦ All-In _ ys a h j
      ]),
      insert_by-Sorted before W x ys t,
    )
    | inr e ↦ rw e ((e, In-All _ ys (λ a i. W.cotrans a y x (All-In _ ys a h i) e)), (h, t))
  ]

  pub sort_by-Sorted :
      (before : A → A → Bool) (W : WeakOrder before) (xs : List A)
      → Sorted before (sort_by before xs)
  sort_by-Sorted before W [] = tt
  sort_by-Sorted before W (x ∷ xs) =
      insert_by-Sorted before W x (sort_by before xs) (sort_by-Sorted before W xs)

  pub take-In : (n : ℕ) (xs : List A) (a : A) → In a (take n xs) → In a xs
  take-In zero xs a h = absurd h
  take-In (suc n) [] a h = absurd h
  take-In (suc n) (x ∷ xs) a (inl e) = inl e
  take-In (suc n) (x ∷ xs) a (inr i) = inr (take-In n xs a i)

  pub take-Sorted :
      (before : A → A → Bool) (n : ℕ) (xs : List A) → Sorted before xs → Sorted before (take n xs)
  take-Sorted before zero xs h = tt
  take-Sorted before (suc n) [] h = tt
  take-Sorted before (suc n) (x ∷ xs) (h, t) =
      (In-All _ (take n xs) (λ a i. All-In _ xs a h (take-In n xs a i)), take-Sorted before n xs t)

  pub append-In : (xs ys : List A) (a : A) → In a (xs ++ ys) ↔ (In a xs ⊎ In a ys)
  append-In [] ys a = ground arith
  append-In (x ∷ xs) ys a = ground (arith, append-In xs ys a)
