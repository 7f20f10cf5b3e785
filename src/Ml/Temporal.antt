-- ===== src/Ml/Temporal.antt =====
-- src/honeypot_ai/ml.py: the parts of a temporal split.
use nsf_research_open_siem.Base.{
  ℕ, zero, suc, ◌≤◌, ℤ, ◌≤ℤ◌, ◌≡◌, refl, ap, ◌∙◌, Bool, true, false, List, [], ◌∷◌, ◌++◌, Option,
  arith, inl, inr, Bool-cases,
}
use nsf_research_open_siem.Base.Dict.{length, length-append}
use nsf_research_open_siem.Base.Bytes.{take, drop, take-append-drop, length-drop}
use nsf_research_open_siem.Base.Lists.{All, filter}
use nsf_research_open_siem.Base.Sort.{sorted, insert_sorted}
use nsf_research_open_siem.Endpoint.Windows.{EndpointWindow}
use nsf_research_open_siem.Ml.Split.{
  int_before, tie_order, in_order, recent, ordered_windows, split_index, train_end, calibration_end,
  split_two, split_three,
}

le_trans : (a b c : ℤ) → a ≤ℤ b → b ≤ℤ c → a ≤ℤ c
le_trans a b c h k = ground arith

int_before-true : (a b : ℤ) (tie : Bool) → int_before a b tie ≡ true → a ≤ℤ b
int_before-true a b tie h = ground arith

int_before-false : (a b : ℤ) (tie : Bool) → int_before a b tie ≡ false → b ≤ℤ a
int_before-false a b tie h = ground arith

module _ {A : Type 0} where
  abbrev Later : EndpointWindow A → List (EndpointWindow A) → Type 0
  Later a ws = All (λ b. a.window_start ≤ℤ b.window_start) ws

  -- No window of the first part starts after one of the second.
  abbrev pub Precedes : List (EndpointWindow A) → List (EndpointWindow A) → Type 0
  Precedes xs ys = All (λ a. Later a ys) xs

  abbrev Rising : List (EndpointWindow A) → Type 0
  Rising [] = Unit
  Rising (x ∷ xs) = Later x xs × Rising xs

  before_le : (a b : EndpointWindow A) → in_order a b ≡ true → a.window_start ≤ℤ b.window_start
  unfolding in_order
  before_le a b h = int_before-true a.window_start b.window_start (tie_order a b) h

  after_le : (a b : EndpointWindow A) → in_order a b ≡ false → b.window_start ≤ℤ a.window_start
  unfolding in_order
  after_le a b h = int_before-false a.window_start b.window_start (tie_order a b) h

  Later-trans :
      (a b : EndpointWindow A) (ws : List (EndpointWindow A))
      → a.window_start ≤ℤ b.window_start
      → Later b ws
      → Later a ws
  Later-trans a b [] h k = tt
  Later-trans a b (w ∷ ws) h k =
      (le_trans a.window_start b.window_start w.window_start h k.0, Later-trans a b ws h k.1)

  Later-insert :
      (a x : EndpointWindow A) (ws : List (EndpointWindow A))
      → a.window_start ≤ℤ x.window_start
      → Later a ws
      → Later a (insert_sorted in_order x ws)
  unfolding insert_sorted
  Later-insert a x [] h k = (h, tt)
  Later-insert a x (w ∷ ws) h k = elim (Bool-cases (in_order x w)) [
    | inl t ↦ rw t (h, k)
    | inr f ↦ rw f (k.0, Later-insert a x ws h k.1)
  ]

  insert-Rising :
      (x : EndpointWindow A) (ws : List (EndpointWindow A))
      → Rising ws
      → Rising (insert_sorted in_order x ws)
  unfolding insert_sorted
  insert-Rising x [] r = (tt, tt)
  insert-Rising x (w ∷ ws) r = elim (Bool-cases (in_order x w)) [
    | inl t ↦ rw t ((before_le x w t, Later-trans x w ws (before_le x w t) r.0), r)
    | inr f ↦ rw f (Later-insert w x ws (after_le x w f) r.0, insert-Rising x ws r.1)
  ]

  sorted-Rising : (ws : List (EndpointWindow A)) → Rising (sorted in_order ws)
  unfolding sorted
  sorted-Rising [] = tt
  sorted-Rising (w ∷ ws) = insert-Rising w (sorted in_order ws) (sorted-Rising ws)

  All-append :
      (P : EndpointWindow A → Type 0) (xs ys : List (EndpointWindow A))
      → All P (xs ++ ys)
      → All P ys
  All-append P [] ys h = h
  All-append P (x ∷ xs) ys h = All-append P xs ys h.1

  Rising-Precedes : (xs ys : List (EndpointWindow A)) → Rising (xs ++ ys) → Precedes xs ys
  Rising-Precedes [] ys r = tt
  Rising-Precedes (x ∷ xs) ys r = (All-append _ xs ys r.0, Rising-Precedes xs ys r.1)

  Rising-tail : (xs ys : List (EndpointWindow A)) → Rising (xs ++ ys) → Rising ys
  Rising-tail [] ys r = r
  Rising-tail (x ∷ xs) ys r = Rising-tail xs ys r.1

  drop-take :
      (i j : ℕ) (ws : List (EndpointWindow A)) → i ≤ j → drop i (take j ws) ++ drop j ws ≡ drop i ws
  unfolding drop take
  drop-take zero j ws h = take-append-drop j ws
  drop-take (suc i) zero ws h = absurd (omega (arith, h))
  drop-take (suc i) (suc j) [] h = refl
  drop-take (suc i) (suc j) (w ∷ ws) h = drop-take i j ws (omega arith)

  length-take : (i : ℕ) (ws : List (EndpointWindow A)) → i ≤ length ws → length (take i ws) ≡ i
  length-take i ws h = omega (
    arith,
    length-append (take i ws) (drop i ws),
    ap length (take-append-drop i ws),
    length-drop i ws,
  )

split_index_bounds :
    (n share : ℕ) → 2 ≤ n → (1 ≤ split_index n share) × (suc (split_index n share) ≤ n)
unfolding split_index
split_index_bounds n share h = ground arith

three_bounds :
    (n share both : ℕ)
    → 3 ≤ n
    → (1 ≤ train_end n share)
      × (suc (train_end n share) ≤ calibration_end n share both)
      × (suc (calibration_end n share both) ≤ n)
unfolding train_end calibration_end
three_bounds n share both h = ground arith

module _ {A : Type 0} (year : ℤ → ℕ) (min_year : Option ℕ) where
  ordered-Rising : (ws : List (EndpointWindow A)) → Rising (ordered_windows year min_year ws)
  unfolding ordered_windows
  ordered-Rising ws = sorted-Rising (filter (recent year min_year) ws)

  -- The two parts of a temporal split, whatever the share, are not empty, are together all the
  -- ordered windows, and no window of the first starts after one of the second.
  pub split_two-Precedes :
      (share : ℕ) (ws : List (EndpointWindow A))
      → 2 ≤ length (ordered_windows year min_year ws)
      → let parts = split_two share (ordered_windows year min_year ws) in
        (1 ≤ length parts.0)
        × (1 ≤ length parts.1)
        × (parts.0 ++ parts.1 ≡ ordered_windows year min_year ws)
        × Precedes parts.0 parts.1
  unfolding split_two
  split_two-Precedes share ws h =
      let all = ordered_windows year min_year ws in
      let i = split_index (length all) share in
      let b = split_index_bounds (length all) share h in
      let e = take-append-drop i all in
      (
        omega (arith, b.0, b.1, length-take i all (omega (arith, b.1))),
        omega (arith, b.1, length-drop i all),
        e,
        Rising-Precedes (take i all) (drop i all) (rw e (ordered-Rising ws)),
      )

  -- With at least three windows, the training, calibration and test parts, whatever the shares, are
  -- not empty, are together all the ordered windows, and no window of one starts after one of a later
  -- part.
  pub split_three-Precedes :
      (share both : ℕ) (ws : List (EndpointWindow A))
      → 3 ≤ length (ordered_windows year min_year ws)
      → let parts = split_three share both (ordered_windows year min_year ws) in
        (1 ≤ length parts.0)
        × (1 ≤ length parts.1)
        × (1 ≤ length parts.2)
        × (parts.0 ++ (parts.1 ++ parts.2) ≡ ordered_windows year min_year ws)
        × Precedes parts.0 (parts.1 ++ parts.2)
        × Precedes parts.1 parts.2
  unfolding split_three
  split_three-Precedes share both ws h =
      let all = ordered_windows year min_year ws in
      let i = train_end (length all) share in
      let j = calibration_end (length all) share both in
      let b = three_bounds (length all) share both h in
      let later = drop-take i j all (omega (arith, b.1)) in
      let e = ap (◌++◌ (take i all)) later ∙ take-append-drop i all in
      let taken = length-take j all (omega (arith, b.2)) in
      (
        omega (arith, b.0, b.1, b.2, length-take i all (omega (arith, b.1, b.2))),
        omega (arith, b.1, taken, length-drop i (take j all)),
        omega (arith, b.2, length-drop j all),
        e,
        Rising-Precedes (take i all) (drop i (take j all) ++ drop j all) (rw e (ordered-Rising ws)),
        Rising-Precedes (drop i (take j all)) (drop j all) (
            rw later (
              Rising-tail (take i all) (drop i all)
                (rw (take-append-drop i all) (ordered-Rising ws)))),
      )
