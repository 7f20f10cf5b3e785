-- ===== src/Tests/Exports.antt =====
-- The theorems about saved offsets and about records that leave the program.
use nsf_research_open_siem.Base.{
  ℤ, pos, ◌≡◌, refl, String, true, false, List, [], ◌∷◌, Option, none, some, string_eq,
}
use nsf_research_open_siem.Base.Dict.{Dict}
use nsf_research_open_siem.Base.Sort.{sorted}
use nsf_research_open_siem.Base.Result.{Result, ok}
use nsf_research_open_siem.Models.{Value, int, str, obj, Fields, end, field, get, Ioc}
use nsf_research_open_siem.Realtime.Offsets.{key_before, offset_fields}
use nsf_research_open_siem.Realtime.Validate.{is_ours}
use nsf_research_open_siem.Realtime.Splunk.{World, Targets, HecReport, Saved}
use nsf_research_open_siem.Export.Records.{has_key}
use nsf_research_open_siem.Export.Wazuh.{wazuh_event}
use nsf_research_open_siem.Export.Marked.{wazuh_event-IsMarked}
use nsf_research_open_siem.Export.Iocs.{Patterns, ioc_key_eq, key_of, event_iocs, extract_iocs}
use nsf_research_open_siem.Export.Cdb.{misp_attributes_to_wazuh_cdb}
use nsf_research_open_siem.Export.Rows.{AreCdb, misp_attributes_to_wazuh_cdb-AreCdb}
use nsf_research_open_siem.Export.Misp.{
  MispTexts, attribute_of, attribute_key_eq, pair_of, report_to_misp_attributes,
}
use nsf_research_open_siem.Export.Deduped.{report_to_misp_attributes-OneEach}
use nsf_research_open_siem.Export.Each.{Keeps}
use nsf_research_open_siem.Export.Known.{extract_iocs-Lists}
use nsf_research_open_siem.Tests.Sample.{sample_py, sample_ip, sample_log}
use nsf_research_open_siem.Tests.Streams.{partial}

abbrev offsets : Dict String ℤ
offsets = ("log", pos 2) ∷ ("audit", pos 7) ∷ []

abbrev written : Fields → String
written fs = "offsets"

abbrev read_back : String → Option Value
read_back t = some (obj (offset_fields (sorted key_before offsets)))

abbrev targets : Targets
targets = record {
  output_path = some "out";
  state_path = none;
  hec_url = some "https://collector";
  hec_token = some "t";
}

-- The collector accepts one event, and no second one.
abbrev one_only : List Fields → Fields → Option String
one_only [] e = none
one_only (f ∷ fs) e = some "timed out"

abbrev two_events : List String → Result String HecReport
two_events ls = ok (record { parsed = 1; events = end ∷ end ∷ []; ndjson = "{}" })

abbrev world : World
world = record {
  disk = record { files = λ p. some partial; offsets = []; output = none; preview = none };
  accepted = [];
}

abbrev row : Fields
row = field "source" (str "ebpf") (field "raw" (obj (field "pid" (int (pos 7)) end)) end)

marked_example : is_ours (get "integration" (wazuh_event sample_py (λ fs. "{}") "event" row)) ≡ true
unfolding string_eq has_key
marked_example = wazuh_event-IsMarked sample_py (λ fs. "{}") "event" row refl

abbrev sample_patterns : Patterns
sample_patterns = record {
  find_urls = λ s. [];
  find_ips = λ s. "1.1.1.1" ∷ "8.8.8.8" ∷ [];
  find_hashes = λ s. [];
  is_hash = λ s. false;
  hostname = λ s. ok none;
  strip_punctuation = λ s. s;
  strip_dots = λ s. s;
}

iocs_example :
    Keeps key_of
      (event_iocs sample_py sample_ip sample_patterns)
      sample_log
      (extract_iocs sample_py sample_ip sample_patterns sample_log)
iocs_example = extract_iocs-Lists sample_py sample_ip sample_patterns sample_log

abbrev attribute : Fields
attribute =
    field "type" (str "domain") (field "value" (str "bad.test") (field "uuid" (str "u1") end))

abbrev no_scheme : String → Result String String
no_scheme s = ok ""

cdb_example :
    AreCdb sample_py no_scheme
      (λ s. s)
      (misp_attributes_to_wazuh_cdb sample_py no_scheme (λ s. s) false (attribute ∷ attribute ∷ []))
cdb_example =
    misp_attributes_to_wazuh_cdb-AreCdb sample_py no_scheme (λ s. s) false
      (attribute ∷ attribute ∷ [])

abbrev sample_misp : MispTexts
sample_misp = record {
  hostname = λ s. ok none;
  strip_dots = λ s. s;
  comment_parts = λ s. s ∷ [];
  is_dotted_digits = λ s. false;
}

abbrev indicator : Ioc
indicator = record {
  kind = "domain";
  value = "bad.test";
  source = "cowrie";
  context = "session:a1";
}

misp_example :
    Keeps pair_of
      (attribute_of sample_py sample_ip sample_misp)
      (indicator ∷ indicator ∷ [])
      (report_to_misp_attributes sample_py sample_ip sample_misp (indicator ∷ indicator ∷ []))
misp_example =
    report_to_misp_attributes-OneEach sample_py sample_ip sample_misp (indicator ∷ indicator ∷ [])
