-- ===== src/Base/Lists.antt =====
-- Comprehensions with a test, `sum(1 for …)`, `any`, and `max` with a key.
use Prim.Native.Nat.{ℕ, suc, ◌+◌}
use mathlib.Core.Path.{◌≡◌, refl, sym, ◌∙◌}
use mathlib.Core.Logic.{◌⊎◌, inl, inr}
use mathlib.Core.Bool.{Bool, true, false, ◌||◌, true≢false}
use mathlib.Core.List.{List, [], ◌∷◌, ◌++◌, foldr, Perm, cons-ne-nil}
use mathlib.Core.List.Perm
use native.Mathlib.Omega.{arith}
use nsf_research_open_siem.Base.Equality.{if◌then◌else◌, Bool-cases}
use nsf_research_open_siem.Base.Dict.{length}
use nsf_research_open_siem.Base.Sort.{sorted, insert_sorted}

ℕ_set : IsSet ℕ
ℕ_set = hlevel

module _ {ℓ} {A : Type ℓ} where
  -- `[x for x in xs if test(x)]`
  unfoldable pub filter : (A → Bool) → List A → List A
  filter test [] = []
  filter test (x ∷ xs) = if test x then x ∷ filter test xs else filter test xs

  -- `any(test(x) for x in xs)`
  unfoldable pub any_of : (A → Bool) → List A → Bool
  any_of test [] = false
  any_of test (x ∷ xs) = test x || any_of test xs

  abbrev one_more : (A → Bool) → A → ℕ → ℕ
  one_more test x n = if test x then suc n else n

  unfoldable pub count : (A → Bool) → List A → ℕ
  count test xs = foldr (one_more test) 0 xs

  -- `max(xs, key=…)` of a non-empty list: the first of the greatest.
  unfoldable pub greatest : (A → A → Bool) → A → List A → A
  greatest less x [] = x
  greatest less x (y ∷ ys) = greatest less (if less x y then y else x) ys

  abbrev pub All {κ} : (A → Type κ) → List A → Type κ
  All P [] = Unit
  All P (x ∷ xs) = P x × All P xs

  pub count-append :
      (test : A → Bool) (xs ys : List A) → count test (xs ++ ys) ≡ count test xs + count test ys
  unfolding count
  count-append test [] ys = omega arith
  count-append test (x ∷ xs) ys = ground (arith, count-append test xs ys)

  pub count-eq_all :
      (test : A → Bool) (xs : List A) → All (λ x. test x ≡ true) xs → count test xs ≡ length xs
  unfolding count
  count-eq_all test [] h = refl
  count-eq_all test (x ∷ xs) h = rw (h.0, count-eq_all test xs h.1) refl

  pub filter-All : (test : A → Bool) (xs : List A) → All (λ x. test x ≡ true) (filter test xs)
  unfolding filter
  filter-All test [] = tt
  filter-All test (x ∷ xs) = elim (Bool-cases (test x)) [
    | inl t ↦ rw t (t, filter-All test xs)
    | inr f ↦ rw f (filter-All test xs)
  ]

  pub All-filter {κ} :
      (P : A → Type κ) (test : A → Bool) (xs : List A) → All P xs → All P (filter test xs)
  unfolding filter
  All-filter P test [] h = tt
  All-filter P test (x ∷ xs) h = elim (Bool-cases (test x)) [
    | inl t ↦ rw t (h.0, All-filter P test xs h.1)
    | inr f ↦ rw f (All-filter P test xs h.1)
  ]

  pub greatest-All {κ} :
      (P : A → Type κ) (less : A → A → Bool) (x : A) (xs : List A)
      → P x
      → All P xs
      → P (greatest less x xs)
  unfolding greatest
  greatest-All P less x [] p h = p
  greatest-All P less x (y ∷ ys) p h = elim (Bool-cases (less x y)) [
    | inl t ↦ rw t (greatest-All P less y ys h.0 h.1)
    | inr f ↦ rw f (greatest-All P less x ys p h.1)
  ]

  one_more_comm :
      (test : A → Bool) (a b : A) (n : ℕ)
      → one_more test a (one_more test b n) ≡ one_more test b (one_more test a n)
  one_more_comm test a b n = ground arith

  pub count-perm : (test : A → Bool) {xs ys : List A} → Perm xs ys → count test xs ≡ count test ys
  unfolding count
  count-perm test p = Perm.foldr-eq ℕ_set (one_more test) (one_more_comm test) p 0

  pub all_true : (xs : List A) → All (λ x. true ≡ true) xs
  all_true [] = tt
  all_true (x ∷ xs) = (refl, all_true xs)

  pub length-perm : {xs ys : List A} → Perm xs ys → length xs ≡ length ys
  length-perm {xs} {ys} p =
      sym (count-eq_all (λ x. true) xs (all_true xs))
      ∙ count-perm (λ x. true) p
      ∙ count-eq_all (λ x. true) ys (all_true ys)

  pub insert-All {κ} :
      (P : A → Type κ) (before : A → A → Bool) (x : A) (xs : List A)
      → P x
      → All P xs
      → All P (insert_sorted before x xs)
  unfolding insert_sorted
  insert-All P before x [] p h = (p, tt)
  insert-All P before x (y ∷ ys) p h = elim (Bool-cases (before x y)) [
    | inl t ↦ rw t (p, h)
    | inr f ↦ rw f (h.0, insert-All P before x ys p h.1)
  ]

  pub sorted-All {κ} :
      (P : A → Type κ) (before : A → A → Bool) (xs : List A) → All P xs → All P (sorted before xs)
  unfolding sorted
  sorted-All P before [] h = tt
  sorted-All P before (x ∷ xs) h =
      insert-All P before x (sorted before xs) h.0 (sorted-All P before xs h.1)

  pub List-cases : (xs : List A) → (xs ≡ []) ⊎ ((y : A) × (ys : List A) × (xs ≡ y ∷ ys))
  List-cases [] = inl refl
  List-cases (x ∷ xs) = inr (x, xs, refl)

  pub filter-eq-nil :
      (test : A → Bool) (xs : List A) → filter test xs ≡ [] → All (λ x. test x ≡ false) xs
  unfolding filter
  filter-eq-nil test [] h = tt
  filter-eq-nil test (x ∷ xs) h = elim (Bool-cases (test x)) [
    | inl t ↦ absurd (cons-ne-nil x (filter test xs) (rw t at h))
    | inr f ↦ (f, filter-eq-nil test xs (rw f at h))
  ]

  pub any_of-eq-false :
      (test : A → Bool) (xs : List A) → any_of test xs ≡ false → All (λ x. test x ≡ false) xs
  unfolding any_of
  any_of-eq-false test [] h = tt
  any_of-eq-false test (x ∷ xs) h = (ground (arith, h), any_of-eq-false test xs (ground (arith, h)))

  -- What holds of the kept elements, said of all of them.
  pub kept_All :
      (P : A → Type 0) (test : A → Bool) (xs : List A)
      → All P (filter test xs)
      → All (λ x. test x ≡ true → P x) xs
  unfolding filter
  kept_All P test [] h = tt
  kept_All P test (x ∷ xs) h = elim (Bool-cases (test x)) [
    | inl t ↦ let k = rw t at h in ((λ y. k.0), kept_All P test xs k.1)
    | inr f ↦ ((λ y. absurd (true≢false (sym y ∙ f))), kept_All P test xs (rw f at h))
  ]

  module _ {B : Type 0} (le : B → B → Bool) (m : A → B) (less : A → A → Bool)
      (le_refl : (b : B) → le b b ≡ true)
      (le_trans : (a b c : B) → le a b ≡ true → le b c ≡ true → le a c ≡ true)
      (less-true : (x y : A) → less x y ≡ true → le (m x) (m y) ≡ true)
      (less-false : (x y : A) → less x y ≡ false → le (m y) (m x) ≡ true) where
    bounded :
        (x : A) (xs : List A) (g : A)
        → greatest less x xs ≡ g
        → All (λ y. le (m y) (m g) ≡ true) (x ∷ xs)
    unfolding greatest
    bounded x [] g h = rw (sym h) (le_refl (m x), tt)
    bounded x (y ∷ ys) g h = elim (Bool-cases (less x y)) [
      | inl t ↦
          let b = bounded y ys g (rw t at h) in
          (le_trans (m x) (m y) (m g) (less-true x y t) b.0, b)
      | inr f ↦
          let b = bounded x ys g (rw f at h) in
          (b.0, (le_trans (m y) (m x) (m g) (less-false x y f) b.0, b.1))
    ]

    -- The greatest element has the greatest measure.
    pub greatest-bound :
        (x : A) (xs : List A) → All (λ y. le (m y) (m (greatest less x xs)) ≡ true) (x ∷ xs)
    greatest-bound x xs = bounded x xs (greatest less x xs) refl
