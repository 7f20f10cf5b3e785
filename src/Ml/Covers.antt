-- ===== src/Ml/Covers.antt =====
-- src/honeypot_ai/ml.py: no score is missed by the loop over the threshold candidates.
use mathlib.Core.Path.{subst}
use nsf_research_open_siem.Base.{
  ℕ, zero, suc, ◌≤◌, ◌≡◌, refl, sym, ap, ◌∙◌, Bool, true, List, [], ◌∷◌, ◌++◌, Option, arith,
}
use nsf_research_open_siem.Base.Dict.{length}
use nsf_research_open_siem.Base.Lists.{All, any_of, count, count-eq_all, count-perm, length-perm}
use nsf_research_open_siem.Runtime.{Runtime}
use nsf_research_open_siem.Endpoint.Windows.{EndpointWindow}
use nsf_research_open_siem.Ml.Numerics.{Scored, Numerics, NumericLaws}
use nsf_research_open_siem.Ml.Candidates.{
  Candidate, ties, after_ties, candidate_record, candidate_loop, threshold_candidates,
}
use nsf_research_open_siem.Ml.Ties.{ties_split, ties_equal}

module _ (py : Runtime) (np : Numerics py) where
  open py use {Float}
  open np use {float_eq}

  -- Some candidate has the score as its threshold.
  abbrev pub is_threshold : List (Candidate Float) → Scored Float → Bool
  is_threshold cs x = any_of (λ c. float_eq x.0 c.threshold) cs

  abbrev Covered : List (Candidate Float) → List (Scored Float) → Type 0
  Covered cs xs = All (λ x. is_threshold cs x ≡ true) xs

  Covered-ties :
      (c : Candidate Float) (cs : List (Candidate Float)) (xs : List (Scored Float))
      → All (λ x. float_eq x.0 c.threshold ≡ true) xs
      → Covered (c ∷ cs) xs
  unfolding any_of
  Covered-ties c cs [] h = tt
  Covered-ties c cs (x ∷ xs) h = (rw h.0 refl, Covered-ties c cs xs h.1)

  Covered-more :
      (c : Candidate Float) (cs : List (Candidate Float)) (xs : List (Scored Float))
      → Covered cs xs
      → Covered (c ∷ cs) xs
  unfolding any_of
  Covered-more c cs [] h = tt
  Covered-more c cs (x ∷ xs) h = (ground (arith, h.0), Covered-more c cs xs h.1)

  Covered-append :
      (cs : List (Candidate Float)) (xs ys : List (Scored Float))
      → Covered cs xs
      → Covered cs ys
      → Covered cs (xs ++ ys)
  Covered-append cs [] ys h k = k
  Covered-append cs (x ∷ xs) ys h k = (h.0, Covered-append cs xs ys h.1 k)

  after_le : (s : Float) (xs : List (Scored Float)) → length (after_ties py np s xs) ≤ length xs
  unfolding after_ties
  after_le s [] = omega arith
  after_le s (x ∷ xs) = ground (arith, after_le s xs)

  module _ (laws : NumericLaws py np) where
    eq_refl : (a : Float) → float_eq a a ≡ true
    eq_refl a = ground (arith, laws.eq_iff a a, laws.le_refl a)

    loop_covers :
        (positives negatives : ℕ) (days : Option Float) (fuel alerts tp fp : ℕ)
        (xs : List (Scored Float))
        → length xs ≤ fuel
        → Covered (candidate_loop py np positives negatives days fuel alerts tp fp xs) xs
    unfolding candidate_loop candidate_record
    loop_covers p n d fuel alerts tp fp [] l = tt
    loop_covers p n d zero alerts tp fp (x ∷ xs) l = absurd (omega (arith, l))
    loop_covers p n d (suc fuel) alerts tp fp (x ∷ xs) l =
        subst (Covered _) (ap (◌∷◌ x) (ties_split py np x.0 xs)) (
          Covered-append _ (x ∷ ties py np x.0 xs) (after_ties py np x.0 xs)
            (Covered-ties _ _ (x ∷ ties py np x.0 xs) (eq_refl x.0, ties_equal py np x.0 xs))
            (Covered-more _ _ (after_ties py np x.0 xs) (
              loop_covers p n d fuel _ _ _ (after_ties py np x.0 xs)
                (omega (arith, l, after_le x.0 xs)))))

    -- Every score is the threshold of some candidate.
    pub threshold_candidates_cover :
        (scored : List (Scored Float)) (windows : List (EndpointWindow Float))
        → count (is_threshold (threshold_candidates py np scored windows)) scored ≡ length scored
    unfolding threshold_candidates count
    threshold_candidates_cover [] windows = refl
    threshold_candidates_cover (x ∷ xs) windows =
        let scored = x ∷ xs in
        let falling = np.descending scored in
        let same = length-perm (laws.descending_perm scored) in
        sym (count-perm _ (laws.descending_perm scored))
        ∙ count-eq_all _ falling (
            Covered-more _ _ falling
              (loop_covers _ _ _ (length scored) 0 0 0 falling (omega (arith, same))))
        ∙ same
