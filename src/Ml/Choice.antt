-- ===== src/Ml/Choice.antt =====
-- src/honeypot_ai/ml.py: what the threshold that a holdout gives satisfies.
use mathlib.Core.Path.{subst}
use nsf_research_open_siem.Base.{
  ◌≡◌, refl, ◌⊎◌, String, Bool, true, false, ltb, List, [], ◌∷◌, inl, inr, Bool-cases, arith,
}
use nsf_research_open_siem.Base.Lists.{
  All, filter, any_of, greatest, filter-All, All-filter, greatest-All, greatest-bound, kept_All,
  List-cases, filter-eq-nil, any_of-eq-false,
}
use nsf_research_open_siem.Base.Text.{is_some}
use nsf_research_open_siem.Runtime.{Runtime}
use nsf_research_open_siem.Endpoint.Windows.{EndpointWindow}
use nsf_research_open_siem.Ml.Numerics.{Scored, Numerics, NumericLaws}
use nsf_research_open_siem.Ml.Candidates.{Candidate, threshold_candidates}
use nsf_research_open_siem.Ml.Calibration.{
  Selection, fell_back, by_candidate, metric_or_zero, lexicographic, fpr_less, fpr_ties, within,
  selected_candidate, fallback_threshold_selection, select_target_fpr,
}
use nsf_research_open_siem.Ml.Counts.{Tells, threshold_candidates-Tells}

module _ (py : Runtime) (np : Numerics py) (laws : NumericLaws py np) where
  open py use {Float, float_le}
  open np use {float_lt, float_eq}

  abbrev pub recall : Candidate Float → Float
  recall c = metric_or_zero py np c.recall_at_threshold

  pair_true :
      (x y : Float) (ps : List (Float × Float)) (last : Bool)
      → lexicographic py np ((x, y) ∷ ps) last ≡ true
      → float_le x y ≡ true
  unfolding lexicographic
  pair_true x y ps last h = ground (arith, laws.eq_iff x y, laws.lt_iff x y, laws.le_total x y)

  pair_false :
      (x y : Float) (ps : List (Float × Float)) (last : Bool)
      → lexicographic py np ((x, y) ∷ ps) last ≡ false
      → float_le y x ≡ true
  unfolding lexicographic
  pair_false x y ps last h = ground (arith, laws.eq_iff x y, laws.lt_iff x y, laws.le_total x y)

  fpr_less-true :
      (a b : Candidate Float) → fpr_less py np a b ≡ true → float_le (recall a) (recall b) ≡ true
  unfolding fpr_less
  fpr_less-true a b h = pair_true _ _ (fpr_ties py np a b) (ltb a.alerts b.alerts) h

  fpr_less-false :
      (a b : Candidate Float) → fpr_less py np a b ≡ false → float_le (recall b) (recall a) ≡ true
  unfolding fpr_less
  fpr_less-false a b h = pair_false _ _ (fpr_ties py np a b) (ltb a.alerts b.alerts) h

  module _ (target : Float) where
    abbrev allows : Candidate Float → Bool
    allows c = within py np target c.false_positive_rate

    -- The selection is a candidate within the bound, of the greatest recall of those.
    pub record Chosen (cs : List (Candidate Float)) (chosen : Selection Float) : Type 0 where
      pub candidate : Candidate Float
      pub basis : chosen.basis ≡ by_candidate candidate
      pub threshold : chosen.selected_threshold ≡ candidate.threshold
      pub allowed : allows candidate ≡ true
      pub greatest : All (λ c. allows c ≡ true → float_le (recall c) (recall candidate) ≡ true) cs

    module _ (fallback : Float) (objective : String) where
      choose_allowed :
          (cs : List (Candidate Float)) (v : Candidate Float) (vs : List (Candidate Float))
          → filter allows cs ≡ v ∷ vs
          → Chosen cs (
              selected_candidate py np fallback objective "calibration_target_fpr"
                (greatest (fpr_less py np) v vs))
      choose_allowed cs v vs h = record {
        candidate = greatest (fpr_less py np) v vs;
        basis = refl;
        threshold = refl;
        allowed =
            (let all = subst (All (λ c. allows c ≡ true)) h (filter-All allows cs) in
              greatest-All (λ c. allows c ≡ true) (fpr_less py np) v vs all.0 all.1);
        greatest = kept_All _ allows cs (
            rw h (
              greatest-bound float_le recall (fpr_less py np) laws.le_refl laws.le_trans
                fpr_less-true fpr_less-false v vs));
      }

      -- The selection keeps the fallback, which only happens without both labels or when no
      -- candidate is within the bound.
      pub record FellBack (binary : Bool) (cs : List (Candidate Float)) (chosen : Selection Float)
          : Type 0 where
        pub reason : String
        pub basis : chosen.basis ≡ fell_back reason
        pub threshold : chosen.selected_threshold ≡ fallback
        pub cause : (binary ≡ false) ⊎ All (λ c. allows c ≡ false) cs

      rateless :
          (cs : List (Candidate Float))
          → All (λ c. is_some c.false_positive_rate ≡ false) cs
          → All (λ c. allows c ≡ false) cs
      rateless [] h = tt
      rateless (c ∷ cs) h = (ground (arith, h.0), rateless cs h.1)

      -- A target for the false-positive rate gives a candidate within it, of the greatest recall
      -- among those, whose counts are those of the scored windows; or else the fallback, which only
      -- happens without both labels or when no candidate is within the target.
      pub select_target_fpr_lem :
          (binary : Bool) (scored : List (Scored Float)) (windows : List (EndpointWindow Float))
          → FellBack binary (threshold_candidates py np scored windows) (
              select_target_fpr py np fallback objective target binary
                (threshold_candidates py np scored windows))
            ⊎ ((chosen : Chosen (threshold_candidates py np scored windows) (
                  select_target_fpr py np fallback objective target binary
                    (threshold_candidates py np scored windows)))
                × Tells float_le scored chosen.candidate)
      unfolding select_target_fpr fallback_threshold_selection choose_allowed
      select_target_fpr_lem false scored windows =
          inl (record { reason = _; basis = refl; threshold = refl; cause = inl refl })
      select_target_fpr_lem true scored windows =
          let cs = threshold_candidates py np scored windows in
          elim (Bool-cases (any_of (λ c. is_some c.false_positive_rate) cs)) [
            | inl t ↦ rw t (elim (List-cases (filter allows cs)) [
              | inl n ↦ rw n (
                  inl (record {
                    reason = _;
                    basis = refl;
                    threshold = refl;
                    cause = inr (filter-eq-nil allows cs n);
                  }))
              | inr (v, vs, h) ↦ rw h (
                  inr (
                    choose_allowed cs v vs h,
                    (let told = subst (All (Tells float_le scored)) h (
                          All-filter (Tells float_le scored) allows cs
                            (threshold_candidates-Tells py np laws scored windows)) in
                        greatest-All (Tells float_le scored) (fpr_less py np) v vs told.0 told.1),
                  ))
            ])
            | inr f ↦ rw f (
                inl (record {
                  reason = _;
                  basis = refl;
                  threshold = refl;
                  cause =
                      inr (rateless cs (any_of-eq-false (λ c. is_some c.false_positive_rate) cs f));
                }))
          ]
