-- ===== src/Base/Group.antt =====
-- The loop `for x in xs: state = d.setdefault(key(x), init(x)); apply(state, x)`, which the
-- program uses for sessions, actors and endpoint windows. An `x` whose key is `none` is skipped.
use nsf_research_open_siem.Base.Equality.{Eq, ◌==◌, if◌then◌else◌}
use nsf_research_open_siem.Base.Numbers.{sum}
use nsf_research_open_siem.Base.Dict.{
  Dict, lookup, upsert, keys, values, update, Distinct, update-Distinct, lookup-upsert, keys-upsert,
  sum-upsert,
}
use Prim.Native.Nat.{ℕ, ◌+◌}
use mathlib.Core.Path.{◌≡◌, refl, sym, subst, ◌∙◌}
use mathlib.Core.Logic.{if_pos, if_neg}
use mathlib.Core.Bool.{Bool, false}
use mathlib.Core.Option.{Option, none, some, get_or}
use mathlib.Core.List.{List, [], ◌∷◌, ◌++◌, map}
use native.Mathlib.Omega.{arith}

-- The entries of a dict satisfy a relation between key and value.
abbrev pub Entries {ℓ κ ν} : {K : Type ℓ} {S : Type κ} → (K → S → Type ν) → Dict K S → Type ν
Entries P [] = Unit
Entries P ((k, v) ∷ d) = P k v × Entries P d

module _ {κ} {K : Type κ} ⦃e : Eq K⦄ where
  abbrev pub has_key : K → Option K → Bool
  has_key k none = false
  has_key k (some j) = k == j

abbrev pub seen_at {κ} : {K : Type κ} → Option K → List K → List K
seen_at none ks = ks
seen_at (some k) ks = k ∷ ks

module _ {ℓ κ} {A : Type ℓ} {K : Type κ} ⦃e : Eq K⦄ (key : A → Option K) where
  -- The elements with a given key, in their order.
  unfoldable pub members : K → List A → List A
  members k [] = []
  members k (x ∷ xs) = if has_key k (key x) then x ∷ members k xs else members k xs

  pub members-cons :
      (x : A) (xs : List A) (k : K) → key x ≡ some k → members k (x ∷ xs) ≡ x ∷ members k xs
  unfolding members
  members-cons x xs k h = ground arith

  -- The keys of the elements, in their order.
  unfoldable pub seen : List A → List K
  seen [] = []
  seen (x ∷ xs) = seen_at (key x) (seen xs)

module _ {ℓ μ} {A : Type ℓ} {S : Type μ} (init : A → S) (apply : A → S → S) where
  -- One object that is made at the first element and sees each in turn.
  unfoldable pub grow : Option S → List A → Option S
  grow o [] = o
  grow o (x ∷ xs) = grow (some (apply x (get_or o (init x)))) xs

module _ {ℓ κ μ} {A : Type ℓ} {K : Type κ} {S : Type μ} ⦃e : Eq K⦄ (key : A → Option K)
    (init : A → S) (apply : A → S → S) where
  abbrev pub visit : A → Option K → Dict K S → Dict K S
  visit x none d = d
  visit x (some k) d = upsert k (init x) (apply x) d

  unfoldable pub group : List A → Dict K S → Dict K S
  group [] d = d
  group (x ∷ xs) d = group xs (visit x (key x) d)

  lookup-visit :
      (k : K) (x : A) (o : Option K) (d : Dict K S)
      → lookup k (visit x o d)
        ≡ (if has_key k o then some (apply x (get_or (lookup k d) (init x))) else lookup k d)
  lookup-visit k x none d = refl
  lookup-visit k x (some j) d = ground (arith, lookup-upsert k j (init x) (apply x) d)

  -- The object under a key is what its own elements make of it, whatever stands between them.
  pub lookup-group :
      (k : K) (xs : List A) (d : Dict K S)
      → lookup k (group xs d) ≡ grow init apply (lookup k d) (members key k xs)
  unfolding group members grow
  lookup-group k [] d = refl
  lookup-group k (x ∷ xs) d =
      ground (arith, lookup-group k xs (visit x (key x) d), lookup-visit k x (key x) d)

  keys-visit :
      (x : A) (ks : List K) (o : Option K) (d : Dict K S)
      → update ks (keys (visit x o d)) ≡ update (seen_at o ks) (keys d)
  unfolding update
  keys-visit x ks none d = refl
  keys-visit x ks (some k) d = rw keys-upsert

  -- The keys stand in the order of their first element, each once.
  pub keys-group : (xs : List A) (d : Dict K S) → keys (group xs d) ≡ update (seen key xs) (keys d)
  unfolding group seen update
  keys-group [] d = refl
  keys-group (x ∷ xs) d = keys-group xs (visit x (key x) d) ∙ keys-visit x (seen key xs) (key x) d

  pub keys-group-Distinct : (xs : List A) → Distinct (keys (group xs []))
  unfolding keys
  keys-group-Distinct xs = rw keys-group (update-Distinct (seen key xs) [] tt)

  pub group-append : (xs ys : List A) (d : Dict K S) → group (xs ++ ys) d ≡ group ys (group xs d)
  unfolding group
  group-append [] ys d = refl
  group-append (x ∷ xs) ys d = group-append xs ys (visit x (key x) d)

  -- What an element establishes of its object, and every element keeps, holds in the end.
  module _ {ν} (P : S → Type ν) (kept : (x : A) (v : S) → P v → P (apply x v)) where
    grow-kept : (xs : List A) (v : S) → P v → (w : S) × (grow init apply (some v) xs ≡ some w) × P w
    unfolding grow
    grow-kept [] v p = (v, refl, p)
    grow-kept (x ∷ xs) v p = grow-kept xs (apply x v) (kept x v p)

    pub group-kept :
        (xs : List A) (x : A) (ys : List A) (k : K) (d : Dict K S)
        → key x ≡ some k
        → ((v : S) → P (apply x v))
        → (w : S) × (lookup k (group (xs ++ x ∷ ys) d) ≡ some w) × P w
    unfolding grow
    group-kept xs x ys k d h made =
        let (w, e, p) =
          grow-kept (members key k ys) (apply x (get_or (lookup k (group xs d)) (init x)))
            (made _) in
        (
          w,
          rw (group-append xs (x ∷ ys) d, lookup-group k (x ∷ ys), members-cons key x ys k h) e,
          p,
        )

  -- Totals: what each element adds to its own object is what it adds to the sum over all objects.
  module _ (m : S → ℕ) (n : A → ℕ) where
    abbrev pub weigh : A → Option K → ℕ
    weigh x none = 0
    weigh x (some _) = n x

    sum-visit :
        ((x : A) → m (init x) ≡ 0)
        → ((x : A) (v : S) → m (apply x v) ≡ m v + n x)
        → (x : A) (o : Option K) (d : Dict K S)
        → sum (map m (values (visit x o d))) ≡ sum (map m (values d)) + weigh x o
    sum-visit z s x none d = omega arith
    sum-visit z s x (some k) d = sum-upsert m (n x) k (init x) (apply x) d (z x) (s x)

    pub sum-group :
        ((x : A) → m (init x) ≡ 0)
        → ((x : A) (v : S) → m (apply x v) ≡ m v + n x)
        → (xs : List A) (d : Dict K S)
        → sum (map m (values (group xs d)))
          ≡ sum (map m (values d)) + sum (map (λ x. weigh x (key x)) xs)
    unfolding group sum
    sum-group z s [] d = omega arith
    sum-group z s (x ∷ xs) d =
        omega (arith, sum-group z s xs (visit x (key x) d), sum-visit z s x (key x) d)

  -- What holds of each new object, and is kept by `apply`, holds of every object.
  module _ {ν} (P : K → S → Type ν)
      (first : (x : A) (k : K) → key x ≡ some k → P k (apply x (init x)))
      (next : (x : A) (k : K) (v : S) → key x ≡ some k → P k v → P k (apply x v)) where
    upsert-Entries :
        (x : A) (k : K) (d : Dict K S)
        → key x ≡ some k
        → Entries P d
        → Entries P (upsert k (init x) (apply x) d)
    unfolding upsert
    upsert-Entries x k [] h p = (first x k h, tt)
    upsert-Entries x k ((j, v) ∷ d) h (p, ps) = elim (e.dec k j) [
      | yes same ↦
          rw (if_pos _ same)
            (subst (λ l. P l (apply x v)) same (next x k v h (subst (λ l. P l v) (sym same) p)), ps)
      | no other ↦ rw (if_neg _ other) (p, upsert-Entries x k d h ps)
    ]

    visit-Entries :
        (x : A) (o : Option K) (d : Dict K S) → key x ≡ o → Entries P d → Entries P (visit x o d)
    visit-Entries x none d h p = p
    visit-Entries x (some k) d h p = upsert-Entries x k d h p

    pub group-Entries : (xs : List A) (d : Dict K S) → Entries P d → Entries P (group xs d)
    unfolding group
    group-Entries [] d p = p
    group-Entries (x ∷ xs) d p =
        group-Entries xs (visit x (key x) d) (visit-Entries x (key x) d refl p)
