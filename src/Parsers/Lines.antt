-- ===== src/Parsers/Lines.antt =====
-- src/honeypot_ai/parsers.py, `parse_ndjson`: one record for each line.
use nsf_research_open_siem.Base.{
  ℕ, ◌+◌, String, Bool, ◌||◌, List, [], ◌∷◌, Option, none, some, ◌==◌, string_eq, if◌then◌else◌,
}
use nsf_research_open_siem.Base.Result.{Result, ok, raise, ◌>>=◌}
use nsf_research_open_siem.Base.Text.{starts_with}
use nsf_research_open_siem.Models.{Value, obj, Fields, Event}
use nsf_research_open_siem.Runtime.{Runtime}
use nsf_research_open_siem.Parsers.Values.{Library}
use nsf_research_open_siem.Parsers.Tpot.{parse_record}

-- What stops the generator, with the number of the line.
pub data ParseError : Type 0 where
  invalid_json : ℕ → ParseError
  not_an_object : ℕ → ParseError

-- A line that holds no record: empty or a comment.
unfoldable pub is_blank : String → Bool
unfolding string_eq starts_with
is_blank s = s == "" || starts_with s "#"

module _ (py : Runtime) (lib : Library) (loads : String → Option Value) where
  open py use {strip}

  -- `json.loads(stripped)`, and the test for an object
  abbrev pub object_of : ℕ → Option Value → Result ParseError Fields
  object_of n none = raise (invalid_json n)
  object_of n (some (obj fs)) = ok fs
  object_of n (some v) = raise (not_an_object n)

  -- The events of the lines from number `n` on, as `list(parse_ndjson(lines))` collects them.
  unfoldable pub parse_from : Option String → ℕ → List String → Result ParseError (List Event)
  unfolding is_blank
  parse_from hint n [] = ok []
  parse_from hint n (l ∷ ls) =
      let more = parse_from hint (n + 1) ls in
      if is_blank (strip l) then more else do
        fs ← object_of n (loads (strip l))
        es ← more
        ok (parse_record py lib fs hint (some n) ∷ es)

  unfoldable pub parse_ndjson : Option String → List String → Result ParseError (List Event)
  unfolding parse_from
  parse_ndjson hint ls = parse_from hint 1 ls
