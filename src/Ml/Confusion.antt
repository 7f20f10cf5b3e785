-- ===== src/Ml/Confusion.antt =====
-- src/honeypot_ai/ml.py, `_evaluation_metrics`: the four counts against the windows.
use nsf_research_open_siem.Base.{
  ◌+◌, ◌≡◌, refl, Bool, not, ◌&&◌, List, [], ◌∷◌, ◌==◌, nat_eq, string_eq, arith, inl, inr,
  Bool-cases,
}
use nsf_research_open_siem.Base.Lists.{count}
use nsf_research_open_siem.Runtime.{Runtime}
use nsf_research_open_siem.Endpoint.Windows.{EndpointWindow}
use nsf_research_open_siem.Ml.Numerics.{Scored, Numerics}
use nsf_research_open_siem.Ml.Candidates.{is_malicious, is_benign}
use nsf_research_open_siem.Ml.Metrics.{labelled, evaluation_metrics}

module _ {A : Type 0} (above : Scored A → Bool) where
  -- A test splits the elements with a label in two.
  split_label :
      (test : Scored A → Bool) (xs : List (Scored A))
      → count (λ x. above x && test x) xs + count (λ x. not (above x) && test x) xs ≡ count test xs
  unfolding count
  split_label test [] = refl
  split_label test (x ∷ xs) = ground (arith, split_label test xs)

  both_labels :
      (ss : List A) (ws : List (EndpointWindow A))
      → count (λ x. above x && is_malicious x) (labelled ss ws)
          + count (λ x. above x && is_benign x) (labelled ss ws)
        ≡ count above (labelled ss ws)
  unfolding count labelled
  both_labels [] ws = refl
  both_labels (s ∷ ss) [] = refl
  both_labels (s ∷ ss) (w ∷ ws) = elim (Bool-cases (w.label == "malicious")) [
    | inl t ↦ rw t (ground (arith, both_labels ss ws))
    | inr f ↦ rw f (ground (arith, both_labels ss ws))
  ]

module _ (py : Runtime) (np : Numerics py) where
  open py use {Float}

  -- True and false positives are the alerts, true positives and false negatives the malicious
  -- windows, and false positives and true negatives the benign ones.
  pub evaluation_metrics_add_up :
      (ss : List Float) (ws : List (EndpointWindow Float)) (t h : Float) (binary : Bool)
      → let scored = labelled ss ws in
        let e = evaluation_metrics py np scored ws t h binary in
        (e.true_positives + e.false_positives ≡ e.alerts)
        × (e.true_positives + e.false_negatives ≡ count is_malicious scored)
        × (e.false_positives + e.true_negatives ≡ count is_benign scored)
  unfolding evaluation_metrics
  evaluation_metrics_add_up ss ws t h binary =
      let scored = labelled ss ws in
      let above = λ (x : Scored Float). py.float_le t x.0 in
      (
        both_labels above ss ws,
        split_label above is_malicious scored,
        split_label above is_benign scored,
      )
