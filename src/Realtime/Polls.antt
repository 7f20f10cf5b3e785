-- ===== src/Realtime/Polls.antt =====
-- src/honeypot_ai/realtime.py: polls of a growing file.
use nsf_research_open_siem.Base.{
  ℕ, suc, ◌+◌, ◌≤◌, pos, ◌≡◌, refl, sym, ap, ◌∙◌, ◌⊎◌, inl, inr, String, true, List, [], ◌∷◌, ◌++◌,
  none, some, ◌==◌, nat_eq, if◌then◌else◌, arith, Bool-cases,
}
use mathlib.Core.Path.{ap₂}
use mathlib.Core.List.{append_assoc}
use nsf_research_open_siem.Base.Dict.{length, length-append}
use nsf_research_open_siem.Base.Bytes.{take, drop, drop-append, drop-drop, drop_end, length-drop}
use nsf_research_open_siem.Base.Result.{ok}
use nsf_research_open_siem.Realtime.Read.{
  rfind_newline, ends_newline, complete_lines, from_offset, read_new_complete_lines,
}

abbrev extend : ℕ → List ℕ → List ℕ
extend b [] = if b == 10 then b ∷ [] else []
extend b (c ∷ cs) = b ∷ c ∷ cs

-- The longest beginning that is empty or ends with a newline.
unfoldable pub complete : List ℕ → List ℕ
complete [] = []
complete (b ∷ bs) = extend b (complete bs)

-- Empty, or ends with a newline.
abbrev pub Closed : List ℕ → Type 0
Closed [] = Unit
Closed (b ∷ bs) = ends_newline (b ∷ bs) ≡ true

extend-Closed : (b : ℕ) (cs : List ℕ) → Closed cs → Closed (extend b cs)
unfolding ends_newline
extend-Closed b [] h = ground arith
extend-Closed b (c ∷ cs) h = h

pub complete-Closed : (bs : List ℕ) → Closed (complete bs)
unfolding complete
complete-Closed [] = tt
complete-Closed (b ∷ bs) = extend-Closed b (complete bs) (complete-Closed bs)

-- What stands after it.
unfoldable pub rest : List ℕ → List ℕ
rest bs = drop (length (complete bs)) bs

extend-split :
    (b : ℕ) (cs bs : List ℕ)
    → cs ++ drop (length cs) bs ≡ bs
    → extend b cs ++ drop (length (extend b cs)) (b ∷ bs) ≡ b ∷ bs
unfolding drop
extend-split b [] bs h = ground arith
extend-split b (c ∷ cs) bs h = ap (◌∷◌ b) h

pub complete-rest : (bs : List ℕ) → complete bs ++ rest bs ≡ bs
unfolding complete rest drop
complete-rest [] = refl
complete-rest (b ∷ bs) = extend-split b (complete bs) bs (complete-rest bs)

extend_newline : (c : ℕ) (cs : List ℕ) → (c == 10) ≡ true → extend c cs ≡ c ∷ cs
extend_newline c [] h = rw h refl
extend_newline c (d ∷ cs) h = refl

complete_le : (bs : List ℕ) → length (complete bs) ≤ length bs
complete_le bs = omega (arith, length-append (complete bs) (rest bs), ap length (complete-rest bs))

pub complete-append : (cs bs : List ℕ) → Closed cs → complete (cs ++ bs) ≡ cs ++ complete bs
unfolding complete ends_newline
complete-append [] bs h = refl
complete-append (c ∷ []) bs h = extend_newline c (complete bs) h
complete-append (c ∷ d ∷ cs) bs h = rw (complete-append (d ∷ cs) bs h) refl

-- The code's search for the last newline finds that beginning.
abbrev Found : List ℕ → Type 0
Found bs =
    ((rfind_newline bs ≡ none) × (complete bs ≡ []))
    ⊎ ((i : ℕ) × (rfind_newline bs ≡ some i)
        × (complete bs ≡ take (suc i) bs)
        × (length (complete bs) ≡ suc i))

extend_long : (b i : ℕ) (cs : List ℕ) → length cs ≡ suc i → extend b cs ≡ b ∷ cs
extend_long b i [] h = absurd (omega (arith, h))
extend_long b i (c ∷ cs) h = refl

rfind_cons : (b : ℕ) (bs : List ℕ) → Found bs → Found (b ∷ bs)
unfolding rfind_newline complete take
rfind_cons b bs (inl (r, c)) = elim (Bool-cases (b == 10)) [
  | inl t ↦ rw (r, c, t) (inr (0, refl, refl, refl))
  | inr f ↦ rw (r, c, f) (inl (refl, refl))
]
rfind_cons b bs (inr (i, r, c, l)) =
    rw (r, extend_long b i (complete bs) l) (inr (suc i, refl, ap (◌∷◌ b) c, ap suc l))

rfind_complete : (bs : List ℕ) → Found bs
unfolding rfind_newline complete
rfind_complete [] = inl (refl, refl)
rfind_complete (b ∷ bs) = rfind_cons b bs (rfind_complete bs)

ends-complete : (bs : List ℕ) → ends_newline bs ≡ true → complete bs ≡ bs
unfolding ends_newline complete
ends-complete [] h = refl
ends-complete (b ∷ []) h = extend_newline b [] h
ends-complete (b ∷ c ∷ bs) h = rw (ends-complete (c ∷ bs) h) refl

le-append : (bs new : List ℕ) (o : ℕ) → o ≤ length bs → o ≤ length (bs ++ new)
le-append bs new o l = omega (arith, length-append bs new)

-- From where the first poll stopped, the grown file goes on with what that poll left.
drop_past :
    (bs new : List ℕ) (o : ℕ)
    → o ≤ length bs
    → drop (o + length (complete (drop o bs))) (bs ++ new) ≡ rest (drop o bs) ++ new
unfolding rest
drop_past bs new o l =
    drop-drop o (length (complete (drop o bs))) (bs ++ new)
    ∙ ap (drop (length (complete (drop o bs)))) (drop-append o bs new l)
    ∙ drop-append (length (complete (drop o bs))) (drop o bs) new (complete_le (drop o bs))

complete_past :
    (bs new : List ℕ) (o : ℕ)
    → o ≤ length bs
    → complete (drop o (bs ++ new)) ≡ complete (drop o bs) ++ complete (rest (drop o bs) ++ new)
complete_past bs new o l =
    let d = drop o bs in
    ap complete (
      drop-append o bs new l
      ∙ ap (λ xs. xs ++ new) (sym (complete-rest d))
      ∙ append_assoc (complete d) (rest d) new)
    ∙ complete-append (complete d) (rest d ++ new) (complete-Closed d)

past_le :
    (bs new : List ℕ) (o : ℕ)
    → o ≤ length bs
    → o + length (complete (drop o bs)) ≤ length (bs ++ new)
past_le bs new o l = omega (arith, complete_le (drop o bs), length-drop o bs, length-append bs new)

from_offset_lem : (size o : ℕ) → o ≤ size → from_offset size o ≡ o
from_offset_lem size o l = ground arith

eq_of : (m n : ℕ) → (m == n) ≡ true → m ≡ n
eq_of m n h = ground arith

add_one : (i : ℕ) → i + 1 ≡ suc i
add_one i = omega arith

module _ (decode_lines : List ℕ → List String) where
  -- The lines and the new offset, said with the longest closed beginning.
  complete_lines_lem :
      (bs : List ℕ) (o : ℕ)
      → decode_lines [] ≡ []
      → complete_lines decode_lines bs o
        ≡ (decode_lines (complete bs), pos (o + length (complete bs)))
  unfolding complete_lines
  complete_lines_lem bs o h = elim (Bool-cases (ends_newline bs)) [
    | inl e ↦ rw (e, ends-complete bs e) refl
    | inr e ↦ elim (rfind_complete bs) [
      | inl (r, c) ↦ rw (e, r, c, h) (ap (λ n. ([], pos n)) (omega arith))
      | inr (i, r, c, l) ↦
          rw (e, r, l, c, add_one i)
            (ap (λ n. (decode_lines (take (suc i) bs), pos n)) (omega arith))
    ]
  ]

  -- A poll from inside the file returns the lines of what is complete there, and moves past it.
  pub read_new_complete_lines_lem :
      (bs : List ℕ) (o : ℕ)
      → decode_lines [] ≡ []
      → o ≤ length bs
      → read_new_complete_lines decode_lines (some bs) (pos o)
        ≡ ok (decode_lines (complete (drop o bs)), pos (o + length (complete (drop o bs))))
  unfolding read_new_complete_lines complete
  read_new_complete_lines_lem bs o h l =
      rw (from_offset_lem (length bs) o l) (elim (Bool-cases (length bs == o)) [
        | inl t ↦
            rw (t, sym (eq_of (length bs) o t), drop_end bs, h)
              (ap (λ n. ok ([], pos n)) (omega arith))
        | inr f ↦ rw f (ap ok (complete_lines_lem (drop o bs) o h))
      ])

  pub decode_lines-Closed :
      ((cs ds : List ℕ)
        → ends_newline cs ≡ true
        → decode_lines (cs ++ ds) ≡ decode_lines cs ++ decode_lines ds)
      → decode_lines [] ≡ []
      → (cs ds : List ℕ) → Closed cs
      → decode_lines (cs ++ ds) ≡ decode_lines cs ++ decode_lines ds
  decode_lines-Closed splits h [] ds k = rw h refl
  decode_lines-Closed splits h (c ∷ cs) ds k = splits (c ∷ cs) ds k

  -- Two polls, before and after the file grew, give together the lines and the offset of one poll
  -- of the grown file.
  pub read_new_complete_lines-append :
      (bs new : List ℕ) (o : ℕ)
      → decode_lines [] ≡ []
      → ((cs ds : List ℕ)
          → ends_newline cs ≡ true
          → decode_lines (cs ++ ds) ≡ decode_lines cs ++ decode_lines ds)
      → o ≤ length bs
      → (l1 : List String) × (l2 : List String) × (o1 : ℕ) × (o2 : ℕ) × (read_new_complete_lines
            decode_lines
            (some bs)
            (pos o)
          ≡ ok (l1, pos o1))
        × (read_new_complete_lines decode_lines (some (bs ++ new)) (pos o1) ≡ ok (l2, pos o2))
        × (read_new_complete_lines decode_lines (some (bs ++ new)) (pos o) ≡ ok (l1 ++ l2, pos o2))
  read_new_complete_lines-append bs new o h splits l =
      let c = complete (drop o bs) in
      let more = complete (rest (drop o bs) ++ new) in
      let o1 = o + length c in
      (
        decode_lines c,
        decode_lines more,
        o1,
        o1 + length more,
        read_new_complete_lines_lem bs o h l,
        rw (sym (drop_past bs new o l))
            (read_new_complete_lines_lem (bs ++ new) o1 h (past_le bs new o l)),
        (read_new_complete_lines_lem (bs ++ new) o h (le-append bs new o l)
            ∙ ap (λ d. ok (decode_lines d, pos (o + length d))) (complete_past bs new o l)
            ∙ ap₂ (λ d n. ok (d, pos n))
                (decode_lines-Closed splits h c more (complete-Closed (drop o bs)))
                (omega (arith, length-append c more))),
      )
