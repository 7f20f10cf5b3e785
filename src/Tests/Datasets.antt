-- ===== src/Tests/Datasets.antt =====
-- The theorem about datasets, with numbers written as tallies.
use text.Mathlib.TextPositions.{len-append}
use Prim.Native.String.{len}
use Prim.Native.Nat.{◌%◌}
use nsf_research_open_siem.Base.{
  ℕ, zero, suc, ◌+◌, ◌*◌, ◌/◌, ℤ, pos, negsuc, pos_part, ◌≡◌, refl, ap, ◌∙◌, String, ◌<>◌, [], ◌∷◌,
  Option, none, some, arith, ◌==◌, nat_eq, string_eq, if◌then◌else◌, map,
}
use nsf_research_open_siem.Base.Result.{ok}
use nsf_research_open_siem.Models.{Value, int, float, list}
use nsf_research_open_siem.Runtime.{Runtime}
use nsf_research_open_siem.Endpoint.Windows.{EndpointWindow}
use nsf_research_open_siem.Endpoint.Records.{DatasetTexts, windows_to_records, read_windows}
use nsf_research_open_siem.Endpoint.Dataset.{DatasetLaws, normalised, read-windows_to_records}
use nsf_research_open_siem.Tests.Sample.{sample_py}

abbrev tally : ℕ → String
tally zero = ""
tally (suc n) = "1" <> tally n

len-tally : (n : ℕ) → len (tally n) ≡ n
len-tally zero = refl
len-tally (suc n) = omega (arith, len-append "1" (tally n), len-tally n)

abbrev tally_value : Value → Option ℕ
tally_value (int n) = some (pos_part n * 4)
tally_value (float s) = some (len s)
tally_value v = none

abbrev tally_py : Runtime
tally_py = record sample_py { float_of = tally_value }

abbrev time_tally : ℤ → String
time_tally (pos n) = tally (n * 2)
time_tally (negsuc n) = tally (n * 2 + 1)

abbrev time_of : ℕ → ℤ
time_of n = if n % 2 == 0 then pos (n / 2) else negsuc (n / 2)

time_of-time_tally : (t : ℤ) → time_of (len (time_tally t)) ≡ t
time_of-time_tally (pos n) = ap time_of (len-tally (n * 2)) ∙ ground arith
time_of-time_tally (negsuc n) = ap time_of (len-tally (n * 2 + 1)) ∙ ground arith

abbrev tally_texts : DatasetTexts tally_py
tally_texts = record {
  repr = tally;
  isoformat = time_tally;
  from_iso = λ s. some (time_of (len s));
  semicolon_parts = λ s. s ∷ [];
  window_id = λ e r t. e <> r;
}

tally_laws : DatasetLaws tally_py tally_texts
tally_laws = record {
  str_text = λ s. refl;
  float_repr = λ n. ap some (len-tally n);
  float_count = λ n. refl;
  int_count = λ n h. ground arith;
  iso = λ t. ap some (time_of-time_tally t);
}

abbrev sample_window : EndpointWindow ℕ
sample_window = record {
  id = "w1";
  endpoint = "10.0.0.1";
  role = "protected_destination";
  window_start = pos 60;
  window_end = pos 120;
  features = ("event_count", 8) ∷ [];
  label = "benign";
  label_reasons = "quiet" ∷ [];
  source_event_count = 2;
}

dataset_example :
    read_windows tally_py tally_texts
      (list (windows_to_records tally_py tally_texts (sample_window ∷ [])))
    ≡ ok (map (normalised tally_py tally_texts tally_laws) (sample_window ∷ []))
unfolding string_eq
dataset_example =
    read-windows_to_records tally_py tally_texts tally_laws (sample_window ∷ [])
      ((refl, omega arith), tt)
