-- ===== src/Base/Sort.antt =====
-- Python's `sorted`: stable, by a test that says when one element may stand before another.
use nsf_research_open_siem.Base.Equality.{Bool-cases, if◌then◌else◌}
use nsf_research_open_siem.Base.Numbers.{sum}
use Prim.Native.Nat.{ℕ, ◌+◌}
use mathlib.Core.Path.{◌≡◌, refl}
use mathlib.Core.Logic.{◌⊎◌, inl, inr}
use mathlib.Core.Bool.{Bool, true}
use mathlib.Core.List.{List, [], ◌∷◌, map, Perm}
use mathlib.Core.List.Perm
use native.Mathlib.Omega.{arith}

module _ {ℓ} {A : Type ℓ} (before : A → A → Bool) where
  unfoldable pub insert_sorted : A → List A → List A
  insert_sorted x [] = x ∷ []
  insert_sorted x (y ∷ ys) = if before x y then x ∷ y ∷ ys else y ∷ insert_sorted x ys

  unfoldable pub sorted : List A → List A
  unfolding insert_sorted
  sorted [] = []
  sorted (x ∷ xs) = insert_sorted x (sorted xs)

  abbrev Starts : A → List A → Type 0
  Starts x [] = Unit
  Starts x (y ∷ ys) = before x y ≡ true

  -- Each element may stand before the next one.
  abbrev pub IsSorted : List A → Type 0
  IsSorted [] = Unit
  IsSorted (x ∷ xs) = Starts x xs × IsSorted xs

  insert-perm : (x : A) (ys : List A) → Perm (insert_sorted x ys) (x ∷ ys)
  unfolding insert_sorted
  insert-perm x [] = Perm.refl (x ∷ [])
  insert-perm x (y ∷ ys) = elim (Bool-cases (before x y)) [
    | inl first ↦ rw first (Perm.refl (x ∷ y ∷ ys))
    | inr later ↦ rw later (Perm.trans (Perm.cons y (insert-perm x ys)) (Perm.swap x y ys))
  ]

  pub sorted-perm : (xs : List A) → Perm (sorted xs) xs
  unfolding sorted
  sorted-perm [] = Perm.refl []
  sorted-perm (x ∷ xs) = Perm.trans (insert-perm x (sorted xs)) (Perm.cons x (sorted-perm xs))

  module _ (total : (x y : A) → (before x y ≡ true) ⊎ (before y x ≡ true)) where
    Starts-insert :
        (y x : A) (ys : List A) → before y x ≡ true → Starts y ys → Starts y (insert_sorted x ys)
    unfolding insert_sorted
    Starts-insert y x [] h s = h
    Starts-insert y x (z ∷ ys) h s = ground arith

    insert-IsSorted : (x : A) (ys : List A) → IsSorted ys → IsSorted (insert_sorted x ys)
    unfolding insert_sorted
    insert-IsSorted x [] h = (tt, tt)
    insert-IsSorted x (y ∷ ys) h = elim (Bool-cases (before x y)) [
      | inl first ↦ rw first (first, h)
      | inr later ↦
          rw later (Starts-insert y x ys (ground (arith, total x y)) h.0, insert-IsSorted x ys h.1)
    ]

    pub sorted-IsSorted : (xs : List A) → IsSorted (sorted xs)
    unfolding sorted
    sorted-IsSorted [] = tt
    sorted-IsSorted (x ∷ xs) = insert-IsSorted x (sorted xs) (sorted-IsSorted xs)

  module _ (m : A → ℕ) where
    sum-insert : (x : A) (ys : List A) → sum (map m (insert_sorted x ys)) ≡ m x + sum (map m ys)
    unfolding insert_sorted sum
    sum-insert x [] = refl
    sum-insert x (y ∷ ys) = elim (Bool-cases (before x y)) [
      | inl first ↦ rw first
      | inr later ↦ rw later (omega (arith, sum-insert x ys))
    ]

    pub sum-sorted : (xs : List A) → sum (map m (sorted xs)) ≡ sum (map m xs)
    unfolding sorted sum
    sum-sorted [] = refl
    sum-sorted (x ∷ xs) = omega (arith, sum-insert x (sorted xs), sum-sorted xs)
