-- ===== src/Detectors/Laws.antt =====
-- The arithmetic on doubles that the proofs about src/honeypot_ai/detectors.py rest on.
use nsf_research_open_siem.Base.{ℕ, ◌*◌, ◌<◌, pos, leb, ◌≡◌, ◌⊎◌, true, string_eq}
use nsf_research_open_siem.Runtime.{Runtime}

-- What the proofs use of doubles: their order is total, as no score is a NaN, and a quarter of a
-- number below 2 ^ 53 is exact, so that it compares as the numbers do with any other quarter.
pub record FloatLaws (py : Runtime) : Type 0 where
  pub le_total : (a b : py.Float) → (py.float_le a b ≡ true) ⊎ (py.float_le b a ≡ true)
  pub le_trans :
      (a b c : py.Float) → py.float_le a b ≡ true → py.float_le b c ≡ true → py.float_le a c ≡ true
  pub quarters_le :
      (m n : ℕ) → m < 9_007_199_254_740_992 → py.float_le (py.quarters m) (py.quarters n) ≡ leb m n
  pub quarters_ge :
      (m n : ℕ) → n < 9_007_199_254_740_992 → py.float_le (py.quarters m) (py.quarters n) ≡ leb m n
  pub of_int_quarters : (n : ℕ) → py.of_int (pos n) ≡ py.quarters (n * 4)
  pub add_zero : (n : ℕ) → py.float_add (py.quarters n) (py.quarters 0) ≡ py.quarters n
  pub add_grows :
      (n : ℕ) (b : py.Float)
      → py.float_le (py.quarters 0) b ≡ true
      → py.float_le (py.quarters n) (py.float_add (py.quarters n) b) ≡ true
  pub mul_pos :
      (a : py.Float) (n : ℕ)
      → py.float_le (py.quarters 0) a ≡ true
      → py.float_le (py.quarters 0) (py.float_mul a (py.quarters n)) ≡ true
  pub min_pos :
      (a b : py.Float)
      → py.float_le (py.quarters 0) a ≡ true
      → py.float_le (py.quarters 0) b ≡ true
      → py.float_le (py.quarters 0) (py.float_min a b) ≡ true
