-- ===== src/Export/Each.antt =====
-- What is gathered from each element of a list, and then kept once for each key: the indicators of
-- events in src/honeypot_ai/ioc.py, the attributes of indicators in src/honeypot_ai/exports.py.
use mathlib.Core.Path.{subst}
use mathlib.Core.List.{map}
use nsf_research_open_siem.Base.{
  ◌≡◌, refl, sym, ap, ◌∙◌, ◌⊎◌, inl, inr, String, Bool, false, ◌||◌, List, [], ◌∷◌, ◌++◌, Eq,
  contains, arith,
}
use nsf_research_open_siem.Base.Dict.{
  Distinct, update, update-Distinct, contains-append, contains-add, add,
}
use nsf_research_open_siem.Base.Lists.{All, any_of}
use nsf_research_open_siem.Base.Result.{Result, ok, raise, ◌>>=◌}

abbrev pub OneOf {ℓ} : {A : Type ℓ} → (A → Type 0) → List A → Type 0
OneOf P [] = ⊥
OneOf P (x ∷ xs) = P x ⊎ OneOf P xs

map-append : {A B : Type 0} (f : A → B) (xs ys : List A) → map f (xs ++ ys) ≡ map f xs ++ map f ys
map-append f [] ys = refl
map-append f (x ∷ xs) ys = ap (◌∷◌ (f x)) (map-append f xs ys)

contains-update :
    {A : Type 0} ⦃e : Eq A⦄ (xs s : List A) (a : A)
    → contains (update xs s) a ≡ (contains xs a || contains s a)
unfolding update
contains-update [] s a = refl
contains-update (x ∷ xs) s a = ground (arith, contains-update xs (add x s) a, contains-add x s a)

or_false : (b : Bool) → (b || false) ≡ b
or_false b = ground arith

module _ {B K : Type 0} ⦃e : Eq K⦄ (key : B → K) where
  -- Whether a key is among those of a result.
  abbrev pub mentions : K → Result String (List B) → Bool
  mentions k (raise error) = false
  mentions k (ok bs) = contains (map key bs) k

  module _ {A : Type 0} (f : A → Result String (List B)) where
    abbrev pub Returns : A → Type 0
    Returns x = (bs : List B) × (f x ≡ ok bs)

    -- What is gathered: it raises what one of the elements raises, or no element raises, and its
    -- keys are those of the elements.
    abbrev pub Gathers : List A → Result String (List B) → Type 0
    Gathers xs (raise error) = OneOf (λ x. f x ≡ raise error) xs
    Gathers xs (ok bs) =
        All Returns xs × ((k : K) → contains (map key bs) k ≡ any_of (λ x. mentions k (f x)) xs)

    -- What is kept of it: the same, and each key once.
    abbrev pub Keeps : List A → Result String (List B) → Type 0
    Keeps xs (raise error) = OneOf (λ x. f x ≡ raise error) xs
    Keeps xs (ok bs) =
        Distinct (map key bs)
        × All Returns xs
        × ((k : K) → contains (map key bs) k ≡ any_of (λ x. mentions k (f x)) xs)

    pub nothing_Gathers : Gathers [] (ok [])
    unfolding any_of
    nothing_Gathers = (tt, λ k. refl)

    pub more_Gathers :
        (x : A) (xs : List A) (r s : Result String (List B))
        → f x ≡ r
        → Gathers xs s
        → Gathers (x ∷ xs) (r >>= λ a. s >>= λ b. ok (a ++ b))
    unfolding any_of
    more_Gathers x xs (raise error) s h g = inl h
    more_Gathers x xs (ok a) (raise error) h g = inr g
    more_Gathers x xs (ok a) (ok b) h (all, g) = (
      ((a, h), all),
      λ k. rw h (
          ap (λ ks. contains ks k) (map-append key a b)
          ∙ contains-append (map key a) (map key b) k
          ∙ ap (◌||◌ (contains (map key a) k)) (g k)),
    )

    pub kept_Keeps :
        (xs : List A) (all found : List B)
        → map key found ≡ update (map key all) []
        → Gathers xs (ok all)
        → Keeps xs (ok found)
    kept_Keeps xs all found same (returns, g) = (
      subst Distinct (sym same) (update-Distinct (map key all) [] tt),
      returns,
      λ k. ap (λ ks. contains ks k) same ∙ contains-update (map key all) [] k ∙ or_false _ ∙ g k,
    )
