-- ===== src/Tests/Parsing.antt =====
-- The theorems about parsing, at three lines.
use nsf_research_open_siem.Base.{
  pos, String, false, List, [], ◌∷◌, Option, some, none, string_eq, ◌==◌, if◌then◌else◌,
}
use nsf_research_open_siem.Models.{Value, obj, str, Fields, end, field, Event}
use nsf_research_open_siem.Parsers.Values.{Library}
use nsf_research_open_siem.Parsers.Tpot.{parse_record}
use nsf_research_open_siem.Parsers.Kept.{Keeps, parse_record-Keeps}
use nsf_research_open_siem.Tests.Sample.{sample_py}

abbrev sample_library : Library
sample_library = record {
  from_iso = λ t. none;
  from_text = λ t. none;
  from_number = λ v. pos 0;
  is_digits = λ t. false;
  squeeze = λ t. t;
}

abbrev login : Fields
login = field "eventid" (str "cowrie.login.failed") (field "src_ip" (str "1.1.1.1") end)

abbrev sample_loads : String → Option Value
sample_loads s = if s == "login" then some (obj login) else none

abbrev sample_lines : List String
sample_lines = "# head" ∷ "login" ∷ "" ∷ []

parse_record-Keeps_example :
    Keeps login (some 2) (parse_record sample_py sample_library login none (some 2))
parse_record-Keeps_example = parse_record-Keeps sample_py sample_library login (some 2) none

abbrev parsed_lines : List Event
parsed_lines = parse_record sample_py sample_library login none (some 2) ∷ []
