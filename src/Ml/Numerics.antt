-- ===== src/Ml/Numerics.antt =====
-- What src/honeypot_ai/ml.py takes from doubles, numpy and scikit-learn.
use nsf_research_open_siem.Base.{
  ℕ, ℤ, String, Bool, true, false, not, ◌&&◌, List, [], ◌∷◌, ◌≡◌, ◌⊎◌, map,
}
use nsf_research_open_siem.Base.Lists.{All}
use mathlib.Core.List.{Perm}
use nsf_research_open_siem.Runtime.{Runtime}

-- A window's score with its label: 1 for malicious, else 0.
abbrev pub Scored : Type 0 → Type 0
Scored Float = Float × ℕ

pub record Numerics (py : Runtime) : Type 0 where
  -- `a < b`, `a == b`, `-a` and `n / d` of integers
  pub float_lt : py.Float → py.Float → Bool
  pub float_eq : py.Float → py.Float → Bool
  pub float_neg : py.Float → py.Float
  pub ratio : ℤ → ℤ → py.Float
  -- a decimal literal of the source, by its text
  pub literal : String → py.Float
  -- `np.nextafter(x, np.inf)`, `np.max`, `np.min`, `np.mean`, `np.quantile`
  pub next_up : py.Float → py.Float
  pub np_max : List py.Float → py.Float
  pub np_min : List py.Float → py.Float
  pub np_mean : List py.Float → py.Float
  pub quantile : List py.Float → py.Float → py.Float
  -- scores with their labels, in the order `np.argsort(scores)[::-1]`
  pub descending : List (Scored py.Float) → List (Scored py.Float)
  -- scikit-learn's metrics of labels and scores, or of labels and predictions
  pub roc_auc_score : List (Scored py.Float) → py.Float
  pub average_precision_score : List (Scored py.Float) → py.Float
  pub precision_recall_curve :
      List (Scored py.Float) → List py.Float × List py.Float × List py.Float
  pub precision_recall_fscore : List (Bool × ℕ) → py.Float × py.Float × py.Float

-- Falling scores.
abbrev pub IsFalling : {A : Type 0} → (A → A → Bool) → List (Scored A) → Type 0
IsFalling le [] = Unit
IsFalling le (x ∷ xs) = All (λ y. le y.0 x.0 ≡ true) xs × IsFalling le xs

-- What the proofs use: the order of doubles, as no score is a NaN or infinite, and the documented
-- behaviour of `argsort`, `max` and `nextafter`.
pub record NumericLaws (py : Runtime) (np : Numerics py) : Type 0 where
  pub le_refl : (a : py.Float) → py.float_le a a ≡ true
  pub le_trans :
      (a b c : py.Float) → py.float_le a b ≡ true → py.float_le b c ≡ true → py.float_le a c ≡ true
  pub lt_iff : (a b : py.Float) → np.float_lt a b ≡ not (py.float_le b a)
  pub le_total : (a b : py.Float) → (py.float_le a b ≡ true) ⊎ (py.float_le b a ≡ true)
  pub eq_iff : (a b : py.Float) → np.float_eq a b ≡ (py.float_le a b && py.float_le b a)
  pub descending_perm : (xs : List (Scored py.Float)) → Perm (np.descending xs) xs
  pub descending-IsFalling :
      (xs : List (Scored py.Float)) → IsFalling py.float_le (np.descending xs)
  pub above_max :
      (x : Scored py.Float) (xs : List (Scored py.Float))
      → All
          (λ y. py.float_le (np.next_up (np.np_max (map (λ z. z.0) (x ∷ xs)))) y.0 ≡ false)
          (x ∷ xs)
