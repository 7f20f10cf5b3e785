-- ===== src/Endpoint/Records.antt =====
-- src/honeypot_ai/endpoint.py: windows as records of a dataset, in both directions. The times of a
-- record are taken to be whole seconds, and its event count not to be negative.
use nsf_research_open_siem.Base.{
  ℤ, pos, pos_part, String, ◌<>◌, List, [], ◌∷◌, Option, none, some, ◌==◌, string_eq, if◌then◌else◌,
}
use nsf_research_open_siem.Base.Dict.{Dict}
use nsf_research_open_siem.Base.Result.{Result, ok, raise, ◌>>=◌}
use nsf_research_open_siem.Models.{
  Value, int, float, str, list, obj, Items, nil, cons, Fields, end, field, find, get,
}
use nsf_research_open_siem.Runtime.{Runtime}
use nsf_research_open_siem.Parsers.Values.{holds}
use nsf_research_open_siem.Endpoint.State.{feature_names}
use nsf_research_open_siem.Endpoint.Windows.{EndpointWindow, feature_vector}

-- What stops the reading of a record: a key that is missing, or a text that is no time.
pub data RecordError : Type 0 where
  missing_key : String → RecordError
  invalid_time : String → RecordError
  not_an_array : RecordError

-- `repr(x)`, `isoformat()`, `fromisoformat(text.replace("Z", "+00:00"))` in UTC, the parts of a text
-- between semicolons, and `_window_id`
pub record DatasetTexts (py : Runtime) : Type 0 where
  pub repr : py.Float → String
  pub isoformat : ℤ → String
  pub from_iso : String → Option ℤ
  pub semicolon_parts : String → List String
  pub window_id : String → String → ℤ → String

abbrev pub text_items : List String → Items
text_items [] = nil
text_items (t ∷ ts) = cons (str t) (text_items ts)

module _ (py : Runtime) (texts : DatasetTexts py) where
  open py use {Float, str_of, float_of, of_int, float_int}
  open texts use {repr, isoformat, from_iso, semicolon_parts, window_id}

  unfoldable pub number_fields : Dict String Float → Fields
  number_fields [] = end
  number_fields ((name, x) ∷ d) = field name (float (repr x)) (number_fields d)

  unfoldable pub window_to_record : EndpointWindow Float → Fields
  unfolding number_fields
  window_to_record w = field "id" (str w.id) (
      field "endpoint" (str w.endpoint) (
        field "role" (str w.role) (
          field "window_start" (str (isoformat w.window_start)) (
            field "window_end" (str (isoformat w.window_end)) (
              field "features" (obj (number_fields (feature_vector py feature_names w.features))) (
                field "label" (str w.label) (
                  field "label_reasons" (list (text_items w.label_reasons))
                    (field "source_event_count" (int (pos w.source_event_count)) end))))))))

  abbrev float_or_zero : Option Float → Float
  float_or_zero none = of_int (pos 0)
  float_or_zero (some x) = x

  -- `_as_float`
  unfoldable pub as_float : Value → Float
  as_float v = float_or_zero (float_of v)

  -- `record[key]`
  abbrev required : String → Option Value → Result RecordError Value
  required k none = raise (missing_key k)
  required k (some v) = ok v

  abbrev time_or_error : String → Option ℤ → Result RecordError ℤ
  time_or_error t none = raise (invalid_time t)
  time_or_error t (some n) = ok n

  unfoldable pub parse_datetime : String → Result RecordError ℤ
  parse_datetime t = time_or_error t (from_iso t)

  -- `str(record.get(key, "unknown"))`
  abbrev or_unknown : Option Value → String
  or_unknown none = "unknown"
  or_unknown (some v) = str_of v

  abbrev pub item_texts : Items → List String
  item_texts nil = []
  item_texts (cons v vs) = str_of v ∷ item_texts vs

  abbrev field_names : Fields → List String
  field_names end = []
  field_names (field k v fs) = k ∷ field_names fs

  abbrev non_empty : List String → List String
  non_empty [] = []
  non_empty (t ∷ ts) = if t == "" then non_empty ts else t ∷ non_empty ts

  unfoldable pub reasons_of : Option Value → List String
  unfolding string_eq
  reasons_of (some (str s)) = non_empty (semicolon_parts s)
  reasons_of (some (list vs)) = item_texts vs
  reasons_of (some (obj fs)) = field_names fs
  reasons_of v = []

  -- The features are those of the mapping, or fields of the record itself.
  abbrev feature_source : Fields → Option Value → Fields
  feature_source fs (some (obj gs)) = gs
  feature_source fs v = fs

  unfoldable pub read_features : List String → Fields → Dict String Float
  unfolding get as_float
  read_features [] fs = []
  read_features (n ∷ ns) fs = (n, as_float (get n fs)) ∷ read_features ns fs

  -- `str(record.get("id") or …)`
  abbrev id_or : Value → String → String
  id_or v new = if holds v then str_of v else new

  unfoldable pub window_from_record : Fields → Result RecordError (EndpointWindow Float)
  unfolding find get holds reasons_of read_features parse_datetime as_float string_eq
  window_from_record fs = do
    from ← required "window_start" (find "window_start" fs)
    start ← parse_datetime (str_of from)
    to ← required "window_end" (find "window_end" fs)
    stop ← parse_datetime (str_of to)
    endpoint ← required "endpoint" (find "endpoint" fs)
    ok (record {
      id = id_or (get "id" fs) (window_id (str_of endpoint) (or_unknown (find "role" fs)) start);
      endpoint = str_of endpoint;
      role = or_unknown (find "role" fs);
      window_start = start;
      window_end = stop;
      features = read_features feature_names (feature_source fs (find "features" fs));
      label = or_unknown (find "label" fs);
      label_reasons = reasons_of (find "label_reasons" fs);
      source_event_count = pos_part (float_int (as_float (get "source_event_count" fs)));
    })

  unfoldable pub windows_to_records : List (EndpointWindow Float) → Items
  unfolding window_to_record
  windows_to_records [] = nil
  windows_to_records (w ∷ ws) = cons (obj (window_to_record w)) (windows_to_records ws)

  -- `json.dumps(windows_to_records(windows), …)`, for `write_windows` in JSON
  module _ (dumps : Value → String) where
    unfoldable pub write_windows : List (EndpointWindow Float) → String
    unfolding windows_to_records
    write_windows ws = dumps (list (windows_to_records ws)) <> "\n"

  unfoldable pub read_items : Items → Result RecordError (List (EndpointWindow Float))
  unfolding window_from_record
  read_items nil = ok []
  read_items (cons (obj fs) vs) = do w ← window_from_record fs; ws ← read_items vs; ok (w ∷ ws)
  read_items (cons v vs) = read_items vs

  -- `read_windows` of a JSON file, whose payload is given
  unfoldable pub read_windows : Value → Result RecordError (List (EndpointWindow Float))
  unfolding read_items
  read_windows (list vs) = read_items vs
  read_windows v = raise not_an_array
