-- ===== src/Ml/Split.antt =====
-- src/honeypot_ai/ml.py: the temporal splits of `evaluate_temporal_split`, `tune_temporal_split` and
-- `train_calibrated_model`.
use Prim.Native.String.{compare}
use Prim.Native.Nat.{Ordering}
use nsf_research_open_siem.Base.{
  ℕ, ◌+◌, ◌-◌, ℤ, ltb_ℤ, leb, ltb, String, Bool, true, false, not, List, [], ◌∷◌, Option, none,
  some, ◌==◌, string_eq, if◌then◌else◌,
}
use nsf_research_open_siem.Base.Dict.{length}
use nsf_research_open_siem.Base.Bytes.{take, drop}
use nsf_research_open_siem.Base.Lists.{filter}
use nsf_research_open_siem.Base.Sort.{sorted}
use nsf_research_open_siem.Endpoint.Windows.{EndpointWindow}

abbrev pub least : ℕ → ℕ → ℕ
least a b = if ltb b a then b else a

abbrev pub most : ℕ → ℕ → ℕ
most a b = if ltb a b then b else a

abbrev text_before : String → String → Bool → Bool
text_before s t tie = elim (compare s t) [
  | Ordering.lt ↦ true
  | Ordering.eq ↦ tie
  | Ordering.gt ↦ false
]

abbrev pub int_before : ℤ → ℤ → Bool → Bool
int_before a b tie = if ltb_ℤ a b then true else if ltb_ℤ b a then false else tie

module _ {A : Type 0} where
  -- What decides between windows that start together.
  abbrev pub tie_order : EndpointWindow A → EndpointWindow A → Bool
  tie_order a b =
      int_before a.window_end b.window_end
        (text_before a.endpoint b.endpoint (text_before a.role b.role (text_before a.id b.id true)))

  -- The sort key `(window_start, window_end, endpoint, role, id)` of one is not above the other's.
  unfoldable pub in_order : EndpointWindow A → EndpointWindow A → Bool
  in_order a b = int_before a.window_start b.window_start (tie_order a b)

  -- `min_year is None or window.window_start.year >= min_year`
  module _ (year : ℤ → ℕ) where
    abbrev pub recent : Option ℕ → EndpointWindow A → Bool
    recent none w = true
    recent (some y) w = leb y (year w.window_start)

    unfoldable pub ordered_windows : Option ℕ → List (EndpointWindow A) → List (EndpointWindow A)
    unfolding filter sorted in_order
    ordered_windows min_year ws = sorted in_order (filter (recent min_year) ws)

    unfoldable pub excluded_windows : Option ℕ → List (EndpointWindow A) → List (EndpointWindow A)
    unfolding filter
    excluded_windows min_year ws = filter (λ w. not (recent min_year w)) ws

  -- `[window for window in windows if window.label != "malicious"] or windows`
  abbrev or_all : List (EndpointWindow A) → List (EndpointWindow A) → List (EndpointWindow A)
  or_all [] ws = ws
  or_all (v ∷ vs) ws = v ∷ vs

  unfoldable pub fit_windows : List (EndpointWindow A) → List (EndpointWindow A)
  unfolding filter string_eq
  fit_windows ws = or_all (filter (λ w. not (w.label == "malicious")) ws) ws

-- `max(1, min(n - 1, share))`, where the share is `int(n * fraction)`; `n` is at least 2.
unfoldable pub split_index : ℕ → ℕ → ℕ
split_index n share = most 1 (least (n - 1) share)

-- The ends of the training and the calibration part; `n` is at least 3.
unfoldable pub train_end : ℕ → ℕ → ℕ
train_end n share = most 1 (least (n - 2) share)

unfoldable pub calibration_end : ℕ → ℕ → ℕ → ℕ
unfolding train_end
calibration_end n share both = most (train_end n share + 1) (least (n - 1) both)

module _ {A : Type 0} where
  unfoldable pub split_two : ℕ → List A → List A × List A
  unfolding take drop split_index
  split_two share ws = let i = split_index (length ws) share in (take i ws, drop i ws)

  unfoldable pub split_three : ℕ → ℕ → List A → List A × List A × List A
  unfolding take drop train_end calibration_end
  split_three share both ws =
      let i = train_end (length ws) share in
      let j = calibration_end (length ws) share both in (take i ws, drop i (take j ws), drop j ws)
