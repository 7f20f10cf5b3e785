-- ===== src/Parsers/Batches.antt =====
-- src/honeypot_ai/parsers.py, `parse_ndjson`: how many events the lines give.
use nsf_research_open_siem.Base.{
  ℕ, suc, ◌+◌, ◌≡◌, refl, ap, String, List, [], ◌∷◌, Option, some, string_eq, Bool-cases, inl, inr,
  if◌then◌else◌,
}
use mathlib.Core.Path.{subst}
use nsf_research_open_siem.Base.Dict.{length}
use nsf_research_open_siem.Base.Result.{Result, ok, raise, ◌>>=◌}
use nsf_research_open_siem.Models.{Value, Fields, Event}
use nsf_research_open_siem.Runtime.{Runtime}
use nsf_research_open_siem.Parsers.Values.{Library}
use nsf_research_open_siem.Parsers.Lines.{ParseError, is_blank, object_of, parse_from, parse_ndjson}
use nsf_research_open_siem.Parsers.Tpot.{parse_record}

module _ (py : Runtime) (lib : Library) (loads : String → Option Value) where
  open py use {strip}

  -- How many lines hold a record.
  unfoldable pub records_in : List String → ℕ
  records_in [] = 0
  records_in (l ∷ ls) = if is_blank (strip l) then records_in ls else suc (records_in ls)

  abbrev Counts : ℕ → Result ParseError (List Event) → Type 0
  Counts k (ok es) = length es ≡ k
  Counts k (raise e) = Unit

  one_more :
      (hint : Option String) (n k : ℕ) (o : Result ParseError Fields)
      (more : Result ParseError (List Event))
      → Counts k more
      → Counts (suc k) (do fs ← o; es ← more; ok (parse_record py lib fs hint (some n) ∷ es))
  one_more hint n k (raise e) more h = tt
  one_more hint n k (ok fs) (raise e) h = tt
  one_more hint n k (ok fs) (ok es) h = ap suc h

  from_length :
      (hint : Option String) (n : ℕ) (ls : List String)
      → Counts (records_in ls) (parse_from py lib loads hint n ls)
  unfolding parse_from records_in
  from_length hint n [] = refl
  from_length hint n (l ∷ ls) = elim (Bool-cases (is_blank (strip l))) [
    | inl blank ↦ rw blank (from_length hint (n + 1) ls)
    | inr full ↦ rw full (
        one_more hint n (records_in ls) (object_of py lib loads n (loads (strip l)))
          (parse_from py lib loads hint (n + 1) ls) (from_length hint (n + 1) ls))
  ]

  -- Lines that parse give one event for each line that is neither empty nor a comment.
  pub length-parse_ndjson :
      (hint : Option String) (ls : List String) (es : List Event)
      → parse_ndjson py lib loads hint ls ≡ ok es
      → length es ≡ records_in ls
  unfolding parse_ndjson
  length-parse_ndjson hint ls es h = subst (Counts (records_in ls)) h (from_length hint 1 ls)
