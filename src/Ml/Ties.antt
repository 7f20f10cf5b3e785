-- ===== src/Ml/Ties.antt =====
-- src/honeypot_ai/ml.py: windows with the same score, in a falling list.
use nsf_research_open_siem.Base.{
  ℕ, ◌≡◌, refl, Bool, true, false, ◌&&◌, List, [], ◌∷◌, ◌++◌, inl, inr, nat_eq, Bool-cases, arith,
}
use nsf_research_open_siem.Base.Lists.{All, count}
use nsf_research_open_siem.Runtime.{Runtime}
use nsf_research_open_siem.Ml.Numerics.{Scored, Numerics, NumericLaws, IsFalling}
use nsf_research_open_siem.Ml.Candidates.{ties, after_ties}

module _ {A : Type 0} (le : A → A → Bool) where
  -- The elements with a property whose score reaches a threshold.
  abbrev pub count_from : (Scored A → Bool) → A → List (Scored A) → ℕ
  count_from test t xs = count (λ x. test x && le t x.0) xs

  pub none_from :
      (test : Scored A → Bool) (t : A) (xs : List (Scored A))
      → All (λ x. le t x.0 ≡ false) xs
      → count_from test t xs ≡ 0
  unfolding count
  none_from test t [] h = refl
  none_from test t (x ∷ xs) h = ground (arith, none_from test t xs h.1)

  pub all_from :
      (test : Scored A → Bool) (t : A) (xs : List (Scored A))
      → All (λ x. le t x.0 ≡ true) xs
      → count_from test t xs ≡ count test xs
  unfolding count
  all_from test t [] h = refl
  all_from test t (x ∷ xs) h = ground (arith, all_from test t xs h.1)

module _ (py : Runtime) (np : Numerics py) where
  open py use {Float, float_le}
  open np use {float_eq}

  pub ties_split :
      (s : Float) (xs : List (Scored Float)) → ties py np s xs ++ after_ties py np s xs ≡ xs
  unfolding ties after_ties
  ties_split s [] = refl
  ties_split s (x ∷ xs) = ground (arith, ties_split s xs)

  pub ties_equal :
      (s : Float) (xs : List (Scored Float)) → All (λ x. float_eq x.0 s ≡ true) (ties py np s xs)
  unfolding ties
  ties_equal s [] = tt
  ties_equal s (x ∷ xs) = elim (Bool-cases (float_eq x.0 s)) [
    | inl t ↦ rw t (t, ties_equal s xs)
    | inr f ↦ rw f tt
  ]

  module _ (laws : NumericLaws py np) where
    open laws use {le_refl, le_trans, eq_iff}

    pub below_All :
        (t s : Float) (g : List (Scored Float))
        → float_le t s ≡ true
        → All (λ x. float_eq x.0 s ≡ true) g
        → All (λ x. float_le t x.0 ≡ true) g
    below_All t s [] l h = tt
    below_All t s (x ∷ g) l h =
        (ground (arith, le_trans t s x.0, eq_iff x.0 s), below_All t s g l h.1)

    not_All :
        (s : Float) (x : Scored Float) (xs : List (Scored Float))
        → float_le s x.0 ≡ false
        → All (λ y. float_le y.0 x.0 ≡ true) xs
        → All (λ y. float_le s y.0 ≡ false) xs
    not_All s x [] f h = tt
    not_All s x (y ∷ xs) f h = (ground (arith, le_trans s y.0 x.0), not_All s x xs f h.1)

    not_below :
        (s : Float) (x : Scored Float)
        → float_le x.0 s ≡ true
        → float_eq x.0 s ≡ false
        → float_le s x.0 ≡ false
    not_below s x b f = ground (arith, eq_iff x.0 s)

    -- What follows the ties of the greatest score does not reach it.
    pub after_below :
        (s : Float) (xs : List (Scored Float))
        → All (λ x. float_le x.0 s ≡ true) xs
        → IsFalling float_le xs
        → All (λ x. float_le s x.0 ≡ false) (after_ties py np s xs)
    unfolding after_ties
    after_below s [] b d = tt
    after_below s (x ∷ xs) b d = elim (Bool-cases (float_eq x.0 s)) [
      | inl t ↦ rw t (after_below s xs b.1 d.1)
      | inr f ↦ let no = not_below s x b.0 f in rw f (no, not_All s x xs no d.0)
    ]

    pub after-IsFalling :
        (s : Float) (xs : List (Scored Float))
        → IsFalling float_le xs
        → IsFalling float_le (after_ties py np s xs)
    unfolding after_ties
    after-IsFalling s [] d = tt
    after-IsFalling s (x ∷ xs) d = elim (Bool-cases (float_eq x.0 s)) [
      | inl t ↦ rw t (after-IsFalling s xs d.1)
      | inr f ↦ rw f d
    ]
