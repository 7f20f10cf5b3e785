-- ===== src/Mitre/Known.antt =====
-- src/honeypot_ai/mitre.py: the techniques of an event, against the table of techniques.
use nsf_research_open_siem.Base.{
  ◌≡◌, refl, sym, String, Bool, true, false, List, [], ◌∷◌, ◌++◌, string_eq, Bool-cases, inl, inr,
  arith,
}
use mathlib.Core.Path.{subst}
use nsf_research_open_siem.Base.Equality.{contains}
use nsf_research_open_siem.Base.Dict.{lookup, add, Distinct, add-Distinct}
use nsf_research_open_siem.Base.Text.{is_some}
use nsf_research_open_siem.Models.{Event}
use nsf_research_open_siem.Runtime.{Runtime}
use nsf_research_open_siem.Mitre.{techniques, mark, map_event}

-- The table has an entry for the technique.
abbrev pub is_known : String → Bool
is_known t = is_some (lookup t techniques)

abbrev AllKnown : List String → Type 0
AllKnown [] = Unit
AllKnown (t ∷ ts) = (is_known t ≡ true) × AllKnown ts

snoc-AllKnown :
    (ts : List String) (t : String) → is_known t ≡ true → AllKnown ts → AllKnown (ts ++ t ∷ [])
snoc-AllKnown [] t k h = (k, tt)
snoc-AllKnown (s ∷ ts) t k (h, hs) = (h, snoc-AllKnown ts t k hs)

-- Known techniques, each once.
record IsGood (ts : List String) : Type 0 where
  distinct : Distinct ts
  known : AllKnown ts

add-AllKnown :
    (t : String) (ts : List String) → is_known t ≡ true → AllKnown ts → AllKnown (add t ts)
unfolding add
add-AllKnown t ts k h = elim (Bool-cases (contains ts t)) [
  | inl there ↦ rw there h
  | inr new ↦ rw new (snoc-AllKnown ts t k h)
]

mark-IsGood :
    (b : Bool) (t : String) (ts : List String)
    → is_known t ≡ true
    → IsGood ts
    → IsGood (mark b t ts)
unfolding mark
mark-IsGood true t ts k h = record {
  distinct = add-Distinct t ts h.distinct;
  known = add-AllKnown t ts k h.known;
}
mark-IsGood false t ts k h = h

member-AllKnown :
    (t : String) (ts : List String) → AllKnown ts → contains ts t ≡ true → is_known t ≡ true
member-AllKnown t [] h m = ground arith
member-AllKnown t (s ∷ ts) (h, hs) m = elim (string_eq.dec t s) [
  | yes same ↦ subst (λ u. is_known u ≡ true) (sym same) h
  | no other ↦ member-AllKnown t ts hs (ground arith)
]

module _ (py : Runtime) where
  map_event-IsGood : (e : Event) → IsGood (map_event py e)
  unfolding map_event lookup string_eq
  map_event-IsGood e = mark-IsGood _ "T1105" _ refl (
      mark-IsGood _ "T1496" _ refl (
        mark-IsGood _ "T1046" _ refl (
          mark-IsGood _ "T1053.003" _ refl (
            mark-IsGood _ "T1059.004" _ refl (
              mark-IsGood _ "T1105" _ refl (
                mark-IsGood _ "T1059.004" _ refl
                  (mark-IsGood _ "T1110" _ refl (record { distinct = tt; known = tt }))))))))

  -- The techniques of an event repeat nothing, and each of them has an entry in the table.
  pub map_event-Distinct :
      (e : Event) (t : String)
      → contains (map_event py e) t ≡ true
      → Distinct (map_event py e) × (is_known t ≡ true)
  map_event-Distinct e t m =
      let good = map_event-IsGood e in
      (good.distinct, member-AllKnown t (map_event py e) good.known m)
