-- ===== src/Dispatch/Counting.antt =====
-- How many attempts pass a test, and what `patch` and a pass over the list do to that number.
use salesforce_expert_suppor.Prelude.{
  ℕ, suc, ◌≤◌, ◌≡◌, refl, sym, ◌∙◌, ap, inl, inr, Bool, true, false, not, ◌&&◌, none, List, [], ◌∷◌,
  arith, map, any, In, if◌then◌else◌, ◌==◌, ==_iff, find_first, Bool-cases, In→any,
}
use salesforce_expert_suppor.Dispatch.Attempts.{Attempt, patch}

abbrev pub count : (Attempt → Bool) → List Attempt → ℕ
count p [] = 0
count p (a ∷ rest) = if p a then suc (count p rest) else count p rest

-- No two attempts have one id.
abbrev pub distinct_ids : List Attempt → Bool
distinct_ids [] = true
distinct_ids (a ∷ rest) = not (any (λ b. b.id == a.id) rest) && distinct_ids rest

pub count-patch-le :
    (p : Attempt → Bool) (id : ℕ) (change : Attempt → Attempt) (xs : List Attempt)
    → count p (patch id change xs) ≤ suc (count p xs)
unfolding patch
count-patch-le p id change [] = omega arith
count-patch-le p id change (a ∷ rest) = ground (arith, count-patch-le p id change rest)

-- A change that never passes the test does not raise the number.
pub count-patch-drop :
    (p : Attempt → Bool) (id : ℕ) (change : Attempt → Attempt) (xs : List Attempt)
    → ((a : Attempt) → In a xs → a.id ≡ id → p (change a) ≡ false)
    → count p (patch id change xs) ≤ count p xs
unfolding patch
count-patch-drop p id change [] h = omega arith
count-patch-drop p id change (a ∷ rest) h =
    let tail = count-patch-drop p id change rest (λ b i. h b (inr i)) in
    elim (Bool-cases (a.id == id)) [
      | inl e ↦ let f = h a (inl refl) ((==_iff a.id id).0 e) in rw (e, patch) (ground (arith, f))
      | inr e ↦ rw (e, patch) (ground (arith, tail))
    ]

-- Nor does a pass over the list that adds nobody.
pub count-map-le :
    (p : Attempt → Bool) (change : Attempt → Attempt) (xs : List Attempt)
    → ((a : Attempt) → p (change a) ≡ true → p a ≡ true)
    → count p (map change xs) ≤ count p xs
count-map-le p change [] h = omega arith
count-map-le p change (a ∷ rest) h = ground (arith, h a, count-map-le p change rest h)

pub count-none : (p : Attempt → Bool) (xs : List Attempt) → any p xs ≡ false → count p xs ≡ 0
count-none p [] h = refl
count-none p (a ∷ rest) h = ground (arith, count-none p rest)

pub find_first-count :
    (p : Attempt → Bool) (xs : List Attempt) → find_first p xs ≡ none → count p xs ≡ 0
find_first-count p [] h = refl
find_first-count p (a ∷ rest) h = ground (arith, find_first-count p rest)

distinct_ids_clash :
    (ys : List Attempt) (y c : Attempt) → distinct_ids (y ∷ ys) ≡ true → In c ys → y.id ≡ c.id → ⊥
distinct_ids_clash ys y c h i e =
    ground (arith, In→any (λ b. b.id == y.id) ys c i, ==_iff c.id y.id)

pub distinct_ids-In :
    (xs : List Attempt) (a b : Attempt)
    → distinct_ids xs ≡ true
    → In a xs
    → In b xs
    → a.id ≡ b.id
    → a ≡ b
distinct_ids-In [] a b h i j e = absurd i
distinct_ids-In (x ∷ xs) a b h (inl s) (inl t) e = sym s ∙ t
distinct_ids-In (x ∷ xs) a b h (inl s) (inr j) e =
    absurd (distinct_ids_clash xs x b h j (ap (λ y. y.id) s ∙ e))
distinct_ids-In (x ∷ xs) a b h (inr i) (inl t) e =
    absurd (distinct_ids_clash xs x a h i (ap (λ y. y.id) t ∙ sym e))
distinct_ids-In (x ∷ xs) a b h (inr i) (inr j) e = distinct_ids-In xs a b (ground arith) i j e

-- A change that keeps ids keeps them distinct.
any-id-patch :
    (id other : ℕ) (change : Attempt → Attempt) (xs : List Attempt)
    → ((a : Attempt) → (change a).id ≡ a.id)
    → any (λ b. b.id == other) (patch id change xs) ≡ any (λ b. b.id == other) xs
unfolding patch
any-id-patch id other change [] h = refl
any-id-patch id other change (a ∷ rest) h = ground (arith, h a, any-id-patch id other change rest h)

pub distinct_ids-patch :
    (id : ℕ) (change : Attempt → Attempt) (xs : List Attempt)
    → ((a : Attempt) → (change a).id ≡ a.id)
    → distinct_ids (patch id change xs) ≡ distinct_ids xs
unfolding patch
distinct_ids-patch id change [] h = refl
distinct_ids-patch id change (a ∷ rest) h =
    ground (arith, h a, any-id-patch id a.id change rest h, distinct_ids-patch id change rest h)

any-id-map :
    (other : ℕ) (change : Attempt → Attempt) (xs : List Attempt)
    → ((a : Attempt) → (change a).id ≡ a.id)
    → any (λ b. b.id == other) (map change xs) ≡ any (λ b. b.id == other) xs
any-id-map other change [] h = refl
any-id-map other change (a ∷ rest) h = ground (arith, h a, any-id-map other change rest h)

pub distinct_ids-map :
    (change : Attempt → Attempt) (xs : List Attempt)
    → ((a : Attempt) → (change a).id ≡ a.id)
    → distinct_ids (map change xs) ≡ distinct_ids xs
distinct_ids-map change [] h = refl
distinct_ids-map change (a ∷ rest) h =
    ground (arith, h a, any-id-map a.id change rest h, distinct_ids-map change rest h)
