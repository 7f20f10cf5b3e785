-- ===== src/Base/Dict.antt =====
-- Python's dicts in insertion order, and its sets as lists without repetition.
use nsf_research_open_siem.Base.Equality.{Eq, ◌==◌, contains, if◌then◌else◌, Bool-cases}
use nsf_research_open_siem.Base.Numbers.{sum}
use Prim.Native.Nat.{ℕ, suc, ◌+◌}
use mathlib.Core.Path.{◌≡◌, refl}
use mathlib.Core.Logic.{inl, inr}
use mathlib.Core.Bool.{false, ◌||◌}
use mathlib.Core.Option.{Option, none, some, get_or}
use mathlib.Core.List.{List, [], ◌∷◌, ◌++◌, map}
use native.Mathlib.Omega.{arith}

abbrev pub length {ℓ} : {A : Type ℓ} → List A → ℕ
length [] = 0
length (x ∷ xs) = suc (length xs)

pub length-append {ℓ} : {A : Type ℓ} (xs ys : List A) → length (xs ++ ys) ≡ length xs + length ys
length-append [] ys = omega arith
length-append (x ∷ xs) ys = omega (arith, length-append xs ys)

abbrev pub Dict {ℓ κ} : Type ℓ → Type κ → Type (ℓ ⊔ κ)
Dict K V = List (K × V)

module _ {ℓ κ} {K : Type ℓ} {V : Type κ} where
  unfoldable pub keys : Dict K V → List K
  keys [] = []
  keys ((k, _) ∷ d) = k ∷ keys d

  unfoldable pub values : Dict K V → List V
  values [] = []
  values ((_, v) ∷ d) = v ∷ values d

module _ {ℓ} {A : Type ℓ} ⦃e : Eq A⦄ where
  -- `s.add(x)`
  unfoldable pub add : A → List A → List A
  add x s = if contains s x then s else s ++ x ∷ []

  -- `s.update(xs)`
  unfoldable pub update : List A → List A → List A
  unfolding add
  update [] s = s
  update (x ∷ xs) s = update xs (add x s)

  abbrev pub Distinct : List A → Type 0
  Distinct [] = Unit
  Distinct (x ∷ xs) = (contains xs x ≡ false) × Distinct xs

  pub contains-append :
      (xs ys : List A) (a : A) → contains (xs ++ ys) a ≡ (contains xs a || contains ys a)
  contains-append [] ys a = refl
  contains-append (x ∷ xs) ys a = ground (arith, contains-append xs ys a)

  pub contains-add : (x : A) (s : List A) (a : A) → contains (add x s) a ≡ (a == x || contains s a)
  unfolding add
  contains-add x s a = ground (arith, contains-append s (x ∷ []) a)

  pub snoc-Distinct :
      (s : List A) (x : A) → contains s x ≡ false → Distinct s → Distinct (s ++ x ∷ [])
  snoc-Distinct [] x h d = (refl, tt)
  snoc-Distinct (y ∷ s) x h d = ground (arith, snoc-Distinct s x, contains-append s (x ∷ []) y)

  pub add-Distinct : (x : A) (s : List A) → Distinct s → Distinct (add x s)
  unfolding add
  add-Distinct x s d = elim (Bool-cases (contains s x)) [
    | inl old ↦ rw old d
    | inr new ↦ rw new (snoc-Distinct s x new d)
  ]

  pub update-Distinct : (xs s : List A) → Distinct s → Distinct (update xs s)
  unfolding update
  update-Distinct [] s d = d
  update-Distinct (x ∷ xs) s d = update-Distinct xs (add x s) (add-Distinct x s d)

module _ {ℓ κ} {K : Type ℓ} {V : Type κ} ⦃e : Eq K⦄ where
  -- `d.get(k)`
  unfoldable pub lookup : K → Dict K V → Option V
  lookup k [] = none
  lookup k ((j, v) ∷ d) = if k == j then some v else lookup k d

  -- `d[k] = v`
  unfoldable pub insert : K → V → Dict K V → Dict K V
  insert k v [] = (k, v) ∷ []
  insert k v ((j, w) ∷ d) = if k == j then (j, v) ∷ d else (j, w) ∷ insert k v d

  -- `f(d.setdefault(k, i))`, where `f` changes the object that the dict holds
  unfoldable pub upsert : K → V → (V → V) → Dict K V → Dict K V
  upsert k i f [] = (k, f i) ∷ []
  upsert k i f ((j, v) ∷ d) = if k == j then (j, f v) ∷ d else (j, v) ∷ upsert k i f d

  pub lookup-insert :
      (j k : K) (v : V) (d : Dict K V)
      → lookup j (insert k v d) ≡ (if j == k then some v else lookup j d)
  unfolding lookup insert
  lookup-insert j k v [] = refl
  lookup-insert j k v ((i, w) ∷ d) = ground (arith, lookup-insert j k v d)

  pub lookup-upsert :
      (j k : K) (i : V) (f : V → V) (d : Dict K V)
      → lookup j (upsert k i f d)
        ≡ (if j == k then some (f (get_or (lookup k d) i)) else lookup j d)
  unfolding lookup upsert
  lookup-upsert j k i f [] = refl
  lookup-upsert j k i f ((l, w) ∷ d) = ground (arith, lookup-upsert j k i f d)

  -- An existing key keeps its place, and a new one goes to the end.
  pub keys-upsert :
      (k : K) (i : V) (f : V → V) (d : Dict K V) → keys (upsert k i f d) ≡ add k (keys d)
  unfolding keys upsert add
  keys-upsert k i f [] = refl
  keys-upsert k i f ((j, v) ∷ d) = ground (arith, keys-upsert k i f d)

  pub sum-upsert :
      (m : V → ℕ) (n : ℕ) (k : K) (i : V) (f : V → V) (d : Dict K V)
      → m i ≡ 0
      → ((v : V) → m (f v) ≡ m v + n)
      → sum (map m (values (upsert k i f d))) ≡ sum (map m (values d)) + n
  unfolding upsert values sum
  sum-upsert m n k i f [] z s = omega (arith, s i)
  sum-upsert m n k i f ((j, v) ∷ d) z s = elim (Bool-cases (k == j)) [
    | inl same ↦ rw same (omega (arith, s v))
    | inr other ↦ rw other (omega (arith, sum-upsert m n k i f d z s))
  ]
