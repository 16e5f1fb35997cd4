-- ===== src/Prelude/Sort.antt =====
-- Stable sorting by a Boolean order, as `sorted` and ORDER BY do it.
use Prim.Native.Nat.{suc}
use mathlib.Core.Path.{◌≡◌, refl, ap, ◌∙◌}
use mathlib.Core.Logic.{inl, inr}
use mathlib.Core.Bool.{Bool, true, false}
use mathlib.Core.List.{List, [], ◌∷◌}
use native.Mathlib.Omega.{arith}
use agentic_cyber_investigat.Prelude.Tests.{if◌then◌else◌, Bool-cases}
use agentic_cyber_investigat.Prelude.Lists.{length, select, All, All_mono, All-select, any}

module _ {ℓ} {A : Type ℓ} (le : A → A → Bool) where
  unfoldable pub insert : A → List A → List A
  insert x [] = x ∷ []
  insert x (y ∷ ys) = if le x y then x ∷ y ∷ ys else y ∷ insert x ys

  unfoldable pub sort : List A → List A
  unfolding insert
  sort [] = []
  sort (x ∷ xs) = insert x (sort xs)

  -- Each item is below every later one.
  abbrev pub IsSorted : List A → Type 0
  IsSorted [] = Unit
  IsSorted (x ∷ xs) = All (λ y. le x y ≡ true) xs × IsSorted xs

  pub length-insert : (x : A) (xs : List A) → length (insert x xs) ≡ suc (length xs)
  unfolding insert
  length-insert x [] = refl
  length-insert x (y ∷ ys) = ground (arith, length-insert x ys)

  pub length-sort : (xs : List A) → length (sort xs) ≡ length xs
  unfolding sort
  length-sort [] = refl
  length-sort (x ∷ xs) = length-insert x (sort xs) ∙ ap suc (length-sort xs)

  pub All-insert {κ} : (P : A → Type κ) (x : A) (xs : List A) → P x → All P xs → All P (insert x xs)
  unfolding insert
  All-insert P x [] p h = (p, tt)
  All-insert P x (y ∷ ys) p h = elim (Bool-cases (le x y)) [
    | inl e ↦ rw e (p, h)
    | inr e ↦ rw e (h.0, All-insert P x ys p h.1)
  ]

  pub All-sort {κ} : (P : A → Type κ) (xs : List A) → All P xs → All P (sort xs)
  unfolding sort
  All-sort P [] h = tt
  All-sort P (x ∷ xs) h = All-insert P x (sort xs) h.0 (All-sort P xs h.1)

  pub any-insert : (p : A → Bool) (x : A) (xs : List A) → any p (insert x xs) ≡ any p (x ∷ xs)
  unfolding insert
  any-insert p x [] = refl
  any-insert p x (y ∷ ys) = ground (arith, any-insert p x ys)

  pub any-sort : (p : A → Bool) (xs : List A) → any p (sort xs) ≡ any p xs
  unfolding sort
  any-sort p [] = refl
  any-sort p (x ∷ xs) = ground (arith, any-insert p x (sort xs), any-sort p xs)

  module _ (total : (x y : A) → le x y ≡ false → le y x ≡ true)
      (trans : (x y z : A) → le x y ≡ true → le y z ≡ true → le x z ≡ true) where
    pub insert-IsSorted : (x : A) (xs : List A) → IsSorted xs → IsSorted (insert x xs)
    unfolding insert
    insert-IsSorted x [] s = (tt, tt)
    insert-IsSorted x (y ∷ ys) s = elim (Bool-cases (le x y)) [
      | inl e ↦
          rw e
            ((e, All_mono (λ z. le y z ≡ true) (λ z. le x z ≡ true) (λ z. trans x y z e) ys s.0), s)
      | inr e ↦
          rw e (All-insert (λ z. le y z ≡ true) x ys (total x y e) s.0, insert-IsSorted x ys s.1)
    ]

    pub sort-IsSorted : (xs : List A) → IsSorted (sort xs)
    unfolding sort
    sort-IsSorted [] = tt
    sort-IsSorted (x ∷ xs) = insert-IsSorted x (sort xs) (sort-IsSorted xs)

    -- An item below a whole list goes to its head.
    insert_below : (x : A) (xs : List A) → All (λ y. le x y ≡ true) xs → insert x xs ≡ x ∷ xs
    unfolding insert
    insert_below x [] h = refl
    insert_below x (y ∷ ys) h = rw h.0

    select-insert :
        (p : A → Bool) (x : A) (xs : List A)
        → IsSorted xs
        → select p (insert x xs) ≡ (if p x then insert x (select p xs) else select p xs)
    unfolding insert
    select-insert p x [] s = refl
    select-insert p x (y ∷ ys) s = elim (Bool-cases (le x y)) [
      | inl e ↦
          let low : All (λ z. le x z ≡ true) (select p (y ∷ ys)) =
            All-select (λ z. le x z ≡ true) p (y ∷ ys)
              (e, All_mono (λ z. le y z ≡ true) (λ z. le x z ≡ true) (λ z. trans x y z e) ys s.0) in
          rw (insert_below x (select p (y ∷ ys)) low, e) refl
      | inr e ↦ ground (arith, select-insert p x ys s.1)
    ]

    -- Filtering before or after the sort is the same.
    pub select-sort : (p : A → Bool) (xs : List A) → select p (sort xs) ≡ sort (select p xs)
    unfolding sort
    select-sort p [] = refl
    select-sort p (x ∷ xs) =
        ground (arith, select-insert p x (sort xs) (sort-IsSorted xs), select-sort p xs)

-- A symmetric relation that holds between any two items of a list.
abbrev pub IsApart {ℓ κ} : {A : Type ℓ} → (A → A → Type κ) → List A → Type κ
IsApart R [] = Unit
IsApart R (x ∷ xs) = All (R x) xs × IsApart R xs

pub All_select {ℓ κ} :
    {A : Type ℓ} (P : A → Type κ) (p : A → Bool) (xs : List A) → All P xs → All P (select p xs)
All_select P p [] h = tt
All_select P p (x ∷ xs) h = elim (Bool-cases (p x)) [
  | inl e ↦ rw e (h.0, All_select P p xs h.1)
  | inr e ↦ rw e (All_select P p xs h.1)
]

pub select-IsApart {ℓ κ} :
    {A : Type ℓ} (R : A → A → Type κ) (p : A → Bool) (xs : List A)
    → IsApart R xs
    → IsApart R (select p xs)
select-IsApart R p [] h = tt
select-IsApart R p (x ∷ xs) h = elim (Bool-cases (p x)) [
  | inl e ↦ rw e (All_select (R x) p xs h.0, select-IsApart R p xs h.1)
  | inr e ↦ rw e (select-IsApart R p xs h.1)
]

module _ {ℓ κ} {A : Type ℓ} (le : A → A → Bool) (R : A → A → Type κ)
    (R_sym : (x y : A) → R x y → R y x) where
  insert-IsApart : (x : A) (xs : List A) → All (R x) xs → IsApart R xs → IsApart R (insert le x xs)
  unfolding insert
  insert-IsApart x [] h k = (tt, tt)
  insert-IsApart x (y ∷ ys) h k = elim (Bool-cases (le x y)) [
    | inl e ↦ rw e (h, k)
    | inr e ↦ rw e (All-insert le (R y) x ys (R_sym x y h.0) k.0, insert-IsApart x ys h.1 k.1)
  ]

  pub sort-IsApart : (xs : List A) → IsApart R xs → IsApart R (sort le xs)
  unfolding sort
  sort-IsApart [] h = tt
  sort-IsApart (x ∷ xs) h =
      insert-IsApart x (sort le xs) (All-sort le (R x) xs h.0) (sort-IsApart xs h.1)
