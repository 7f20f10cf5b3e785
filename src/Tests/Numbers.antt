-- ===== src/Tests/Numbers.antt =====
-- Numeric functions that compute on the quarters of the sample, with their laws.
use nsf_research_open_siem.Base.{
  ℕ, suc, ◌-◌, ◌*◌, ◌/◌, ◌≤◌, ◌≡◌, Bool, true, false, List, [], ◌∷◌, leb, ltb, pos_part, ◌==◌,
  nat_eq, if◌then◌else◌, arith, inl, inr, Bool-cases, map,
}
use nsf_research_open_siem.Base.Lists.{All, insert-All}
use nsf_research_open_siem.Base.Sort.{sorted, insert_sorted, sorted-perm}
use nsf_research_open_siem.Ml.Numerics.{Scored, Numerics, NumericLaws, IsFalling}
use nsf_research_open_siem.Tests.Sample.{sample_py}

abbrev not_below : Scored ℕ → Scored ℕ → Bool
not_below a b = leb b.0 a.0

abbrev maximum : List ℕ → ℕ
maximum [] = 0
maximum (x ∷ xs) = let m = maximum xs in if leb x m then m else x

abbrev pub sample_np : Numerics sample_py
sample_np = record {
  float_lt = ltb;
  float_eq = λ a b. a == b;
  float_neg = λ a. a;
  ratio = λ a b. pos_part a * 4 / suc (pos_part b - 1);
  literal = λ s. 2;
  next_up = suc;
  np_max = maximum;
  np_min = λ xs. 0;
  np_mean = maximum;
  quantile = λ xs q. maximum xs;
  descending = sorted not_below;
  roc_auc_score = λ xs. 4;
  average_precision_score = λ xs. 4;
  precision_recall_curve = λ xs. ([], [], []);
  precision_recall_fscore = λ xs. (4, 4, 4);
}

all_below :
    (x y : Scored ℕ) (xs : List (Scored ℕ))
    → leb y.0 x.0 ≡ true
    → All (λ z. leb z.0 y.0 ≡ true) xs
    → All (λ z. leb z.0 x.0 ≡ true) xs
all_below x y [] h k = tt
all_below x y (z ∷ xs) h k = (ground (arith, h, k.0), all_below x y xs h k.1)

insert-IsFalling :
    (x : Scored ℕ) (xs : List (Scored ℕ))
    → IsFalling leb xs
    → IsFalling leb (insert_sorted not_below x xs)
unfolding insert_sorted
insert-IsFalling x [] f = (tt, tt)
insert-IsFalling x (y ∷ xs) f = elim (Bool-cases (leb y.0 x.0)) [
  | inl t ↦ rw t ((t, all_below x y xs t f.0), f)
  | inr n ↦ rw n (
    insert-All (λ z. leb z.0 y.0 ≡ true) not_below x xs (ground (arith, n)) f.0,
    insert-IsFalling x xs f.1,
  )
]

sorted-IsFalling : (xs : List (Scored ℕ)) → IsFalling leb (sorted not_below xs)
unfolding sorted
sorted-IsFalling [] = tt
sorted-IsFalling (x ∷ xs) = insert-IsFalling x (sorted not_below xs) (sorted-IsFalling xs)

over :
    (m : ℕ) (xs : List (Scored ℕ))
    → maximum (map (λ z. z.0) xs) ≤ m
    → All (λ y. leb (suc m) y.0 ≡ false) xs
over m [] h = tt
over m (x ∷ xs) h = (ground (arith, h), over m xs (ground (arith, h)))

pub sample_np_laws : NumericLaws sample_py sample_np
sample_np_laws = record {
  le_refl = λ a. ground arith;
  le_trans = λ a b c h k. ground arith;
  lt_iff = λ a b. ground arith;
  le_total = λ a b. ground arith;
  eq_iff = λ a b. ground arith;
  descending_perm = sorted-perm not_below;
  descending-IsFalling = sorted-IsFalling;
  above_max = λ x xs. over _ (x ∷ xs) (omega arith);
}
