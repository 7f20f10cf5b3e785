-- ===== src/Ml/Counts.antt =====
-- src/honeypot_ai/ml.py: the counts of the threshold candidates, against counting over the windows.
use mathlib.Core.List.{Perm}
use nsf_research_open_siem.Base.{
  ℕ, zero, suc, ◌+◌, ◌≡◌, sym, ap, ◌∙◌, Bool, true, ◌&&◌, List, [], ◌∷◌, Option, inl, inr, nat_eq,
  Bool-cases, arith,
}
use nsf_research_open_siem.Base.Dict.{length}
use nsf_research_open_siem.Base.Lists.{All, count, count-append, count-eq_all, count-perm, all_true}
use nsf_research_open_siem.Runtime.{Runtime}
use nsf_research_open_siem.Endpoint.Windows.{EndpointWindow}
use nsf_research_open_siem.Ml.Numerics.{Scored, Numerics, NumericLaws, IsFalling}
use nsf_research_open_siem.Ml.Candidates.{
  Candidate, is_malicious, is_benign, ties, after_ties, candidate_record, candidate_loop,
  threshold_candidates,
}
use nsf_research_open_siem.Ml.Ties.{
  count_from, none_from, all_from, ties_split, ties_equal, below_All, after_below, after-IsFalling,
}

module _ {A : Type 0} (le : A → A → Bool) where
  -- What a candidate says of the scores: how many reach its threshold, by label.
  pub record Tells (xs : List (Scored A)) (c : Candidate A) : Type 0 where
    pub alerts : c.alerts ≡ count_from le (λ x. true) c.threshold xs
    pub true_positives : c.true_positives ≡ count_from le is_malicious c.threshold xs
    pub false_positives : c.false_positives ≡ count_from le is_benign c.threshold xs

  -- The loop has passed `n` elements with the property, and all of them reach the scores to come.
  abbrev Passed : (Scored A → Bool) → List (Scored A) → ℕ → List (Scored A) → Type 0
  Passed test xs n todo =
      All (λ x. count_from le test x.0 xs ≡ n + count_from le test x.0 todo) todo

module _ (py : Runtime) (np : Numerics py) (laws : NumericLaws py np) where
  open py use {Float, float_le}
  open np use {float_eq}
  open laws use {le_refl}

  module _ (test : Scored Float → Bool) (x : Scored Float) (xs : List (Scored Float)) where
    -- Windows that a threshold below the group counts: all of the group, and those behind it.
    group_from :
        (t : Float)
        → float_le t x.0 ≡ true
        → count_from float_le test t (x ∷ xs)
          ≡ count test (x ∷ ties py np x.0 xs)
            + count_from float_le test t (after_ties py np x.0 xs)
    group_from t l =
        ap (λ ys. count_from float_le test t (x ∷ ys)) (sym (ties_split py np x.0 xs))
        ∙ count-append (λ y. test y && float_le t y.0) (x ∷ ties py np x.0 xs)
            (after_ties py np x.0 xs)
        ∙ ap (λ n. n + count_from float_le test t (after_ties py np x.0 xs))
            (all_from float_le test t (x ∷ ties py np x.0 xs)
              (l, below_All py np laws t x.0 (ties py np x.0 xs) l (ties_equal py np x.0 xs)))

    module _ (all : List (Scored Float)) (n : ℕ) where
      pass_group :
          (ys : List (Scored Float))
          → All
              (λ y. count_from float_le test y.0 all ≡ n + count_from float_le test y.0 (x ∷ xs))
              ys
          → All (λ y. float_le y.0 x.0 ≡ true) ys
          → All
              (λ y.
                count_from float_le test y.0 all
                ≡ n
                  + count test (x ∷ ties py np x.0 xs)
                  + count_from float_le test y.0 (after_ties py np x.0 xs))
              ys
      pass_group [] h b = tt
      pass_group (y ∷ ys) h b = (omega (arith, h.0, group_from y.0 b.0), pass_group ys h.1 b.1)

      at_group :
          Passed float_le test all n (x ∷ xs)
          → IsFalling float_le (x ∷ xs)
          → n + count test (x ∷ ties py np x.0 xs) ≡ count_from float_le test x.0 all
      at_group h d = omega (
        arith,
        h.0,
        group_from x.0 (le_refl x.0),
        none_from float_le test x.0 (after_ties py np x.0 xs)
            (after_below py np laws x.0 xs d.0 d.1),
      )

  after-All :
      (P : Scored Float → Type 0) (s : Float) (xs : List (Scored Float))
      → All P xs
      → All P (after_ties py np s xs)
  unfolding after_ties
  after-All P s [] h = tt
  after-All P s (x ∷ xs) h = elim (Bool-cases (float_eq x.0 s)) [
    | inl t ↦ rw t (after-All P s xs h.1)
    | inr f ↦ rw f h
  ]

  passed :
      (test : Scored Float → Bool) (x : Scored Float) (xs all : List (Scored Float)) (n : ℕ)
      → Passed float_le test all n (x ∷ xs)
      → IsFalling float_le (x ∷ xs)
      → Passed float_le test all (n + count test (x ∷ ties py np x.0 xs)) (after_ties py np x.0 xs)
  passed test x xs all n h d =
      pass_group test x xs all n (after_ties py np x.0 xs)
        (after-All
          (λ y. count_from float_le test y.0 all ≡ n + count_from float_le test y.0 (x ∷ xs)) x.0 xs
          h.1)
        (after-All (λ y. float_le y.0 x.0 ≡ true) x.0 xs d.0)

  group_length :
      (x : Scored Float) (xs : List (Scored Float))
      → count (λ y. true) (x ∷ ties py np x.0 xs) ≡ length (x ∷ ties py np x.0 xs)
  group_length x xs = let g = x ∷ ties py np x.0 xs in count-eq_all (λ y. true) g (all_true g)

  module _ (positives negatives : ℕ) (days : Option Float) (all : List (Scored Float)) where
    loop-Tells :
        (fuel alerts tp fp : ℕ) (todo : List (Scored Float))
        → IsFalling float_le todo
        → Passed float_le (λ x. true) all alerts todo
        → Passed float_le is_malicious all tp todo
        → Passed float_le is_benign all fp todo
        → All
            (Tells float_le all)
            (candidate_loop py np positives negatives days fuel alerts tp fp todo)
    unfolding candidate_loop candidate_record
    loop-Tells zero alerts tp fp todo d a t f = tt
    loop-Tells (suc fuel) alerts tp fp [] d a t f = tt
    loop-Tells (suc fuel) alerts tp fp (x ∷ xs) d a t f = (
      record {
        alerts =
            ap (λ n. alerts + n) (sym (group_length x xs))
            ∙ at_group (λ y. true) x xs all alerts a d;
        true_positives = at_group is_malicious x xs all tp t d;
        false_positives = at_group is_benign x xs all fp f d;
      },
      loop-Tells fuel (alerts + length (x ∷ ties py np x.0 xs))
          (tp + count is_malicious (x ∷ ties py np x.0 xs))
          (fp + count is_benign (x ∷ ties py np x.0 xs)) (after_ties py np x.0 xs)
          (after-IsFalling py np laws x.0 xs d.1)
          (rw (sym (group_length x xs)) (passed (λ y. true) x xs all alerts a d))
          (passed is_malicious x xs all tp t d) (passed is_benign x xs all fp f d),
    )

  nothing_passed :
      (test : Scored Float → Bool) (xs : List (Scored Float)) → Passed float_le test xs 0 xs
  nothing_passed test xs = from_zero xs
    where
      from_zero :
          (ys : List (Scored Float))
          → All (λ y. count_from float_le test y.0 xs ≡ 0 + count_from float_le test y.0 xs) ys
      from_zero [] = tt
      from_zero (y ∷ ys) = (omega arith, from_zero ys)

  Tells-perm :
      (xs ys : List (Scored Float)) (cs : List (Candidate Float))
      → Perm xs ys
      → All (Tells float_le xs) cs
      → All (Tells float_le ys) cs
  Tells-perm xs ys [] p h = tt
  Tells-perm xs ys (c ∷ cs) p h = (
    record {
      alerts = h.0.alerts ∙ count-perm (λ x. float_le c.threshold x.0) p;
      true_positives =
          h.0.true_positives ∙ count-perm (λ x. is_malicious x && float_le c.threshold x.0) p;
      false_positives =
          h.0.false_positives ∙ count-perm (λ x. is_benign x && float_le c.threshold x.0) p;
    },
    Tells-perm xs ys cs p h.1,
  )

  -- The alerts, true positives and false positives of each candidate are the numbers of windows, of
  -- malicious and of benign ones whose scores reach its threshold.
  pub threshold_candidates-Tells :
      (scored : List (Scored Float)) (windows : List (EndpointWindow Float))
      → All (Tells float_le scored) (threshold_candidates py np scored windows)
  unfolding threshold_candidates candidate_record
  threshold_candidates-Tells [] windows = tt
  threshold_candidates-Tells (x ∷ xs) windows =
      let scored = x ∷ xs in
      let falling = np.descending scored in
      let over = laws.above_max x xs in
      (
        record {
          alerts = sym (none_from float_le (λ y. true) _ scored over);
          true_positives = sym (none_from float_le is_malicious _ scored over);
          false_positives = sym (none_from float_le is_benign _ scored over);
        },
        Tells-perm falling scored _ (laws.descending_perm scored) (
            loop-Tells _ _ _ falling _ 0 0 0 falling (laws.descending-IsFalling scored)
              (nothing_passed (λ y. true) falling) (nothing_passed is_malicious falling)
              (nothing_passed is_benign falling)),
      )
