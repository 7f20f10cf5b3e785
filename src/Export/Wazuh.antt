-- ===== src/Export/Wazuh.antt =====
-- src/honeypot_ai/wazuh.py: one flat record for each row of a report.
use Prim.Native.String.{len, slice}
use nsf_research_open_siem.Base.{
  pos, String, ◌<>◌, not, ◌&&◌, ◌||◌, List, [], ◌∷◌, ◌++◌, Option, none, some, ◌==◌, string_eq,
  if◌then◌else◌,
}
use nsf_research_open_siem.Base.Dict.{Dict}
use nsf_research_open_siem.Base.Text.{starts_with}
use nsf_research_open_siem.Models.{
  Value, null, int, str, list, obj, Items, nil, cons, Fields, end, field, get,
}
use nsf_research_open_siem.Runtime.{Runtime}
use nsf_research_open_siem.Parsers.Values.{or_value}
use nsf_research_open_siem.Export.Records.{set_field, has_key}

-- `COLLECTION_KINDS`
abbrev pub collection_kinds : Dict String String
collection_kinds =
    ("events", "event")
    ∷ ("findings", "finding")
    ∷ ("actors", "actor")
    ∷ ("iocs", "ioc")
    ∷ ("sessions", "session")
    ∷ []

-- `s.removeprefix(prefix)`
unfoldable pub remove_prefix : String → String → String
unfolding starts_with
remove_prefix s prefix = if starts_with s prefix then slice s (len prefix) (len s) else s

unfoldable pub field_name : String → String → String
unfolding string_eq
field_name kind key =
    if kind == "ioc" && key == "kind"
    then "ioc_kind"
    else if kind == "ioc" && key == "value"
    then "ioc_value"
    else if kind == "event" && key == "source"
    then "event_source"
    else if kind == "ebpf_event" && key == "source"
    then "event_source"
    else key

unfoldable pub normalized_value : String → String → Value → Value
unfolding string_eq remove_prefix
normalized_value kind key (str s) =
    if kind == "ebpf_event" && key == "event_type" then str (remove_prefix s "ebpf.") else str s
normalized_value kind key v = v

-- `if name in event and alias not in event: event[alias] = event[name]`
unfoldable pub copy_alias : String → String → Fields → Fields
unfolding has_key set_field get
copy_alias name alias event =
    if has_key name event && not (has_key alias event)
    then set_field alias (get name event) event
    else event

unfoldable pub copy_aliases : Fields → Fields
unfolding copy_alias
copy_aliases event =
    copy_alias "endpoint" "host_endpoint"
      (copy_alias "ip" "src_ip" (copy_alias "ioc_value" "indicator" event))

abbrev filled_text : Value → Option String
filled_text (str s) = if s == "" then none else some s
filled_text v = none

-- The first of the keys whose value is a text that is not empty.
unfoldable pub timestamp_of : List String → Fields → Option String
unfolding get string_eq
timestamp_of [] row = none
timestamp_of (k ∷ ks) row = elim (filled_text (get k row)) [
  | none ↦ timestamp_of ks row
  | some s ↦ some s
]

module _ (py : Runtime) (dumps : Fields → String) where
  open py use {lower, str_of}

  abbrev flat_part : Value → String
  flat_part (obj fs) = dumps fs
  flat_part v = str_of v

  abbrev flat_parts : Items → String
  flat_parts nil = ""
  flat_parts (cons v nil) = flat_part v
  flat_parts (cons v (cons w vs)) = flat_part v <> "; " <> flat_parts (cons w vs)

  unfoldable pub flat_value : Value → Value
  flat_value null = str ""
  flat_value (list vs) = str (flat_parts vs)
  flat_value (obj fs) = str (dumps fs)
  flat_value v = v

  -- `str(row.get(key) or default)`
  unfoldable pub text_or : String → String → Fields → String
  unfolding get or_value
  text_or key default row = str_of (or_value (get key row) (str default))

  unfoldable pub effective_kind : String → Fields → String
  unfolding text_or string_eq
  effective_kind kind row =
      if kind == "event" && lower (text_or "source" "" row) == "ebpf" then "ebpf_event" else kind

  unfoldable pub rule_name : String → Fields → String
  unfolding text_or string_eq remove_prefix
  rule_name kind row =
      if kind == "finding" || kind == "ml_alert"
      then "honeypot_ai_" <> kind <> "_" <> lower (text_or "severity" "unknown" row)
      else if kind == "ebpf_event"
      then "honeypot_ai_ebpf_" <> remove_prefix (lower (text_or "event_type" "event" row)) "ebpf."
      else "honeypot_ai_" <> kind

  abbrev pub extra_field : String → Value → Fields → Fields
  extra_field k null d = d
  extra_field k v d = set_field k (flat_value v) d

  -- The loop over the keys that are copied from the raw record.
  unfoldable pub extra_from : List String → Fields → Fields → Fields
  unfolding get set_field flat_value
  extra_from [] raw d = d
  extra_from (k ∷ ks) raw d = extra_from ks raw (extra_field k (get k raw) d)

  abbrev pub extra_keys : List String
  extra_keys = "severity_hint" ∷ "access_type" ∷ "binary" ∷ "uid" ∷ "gid" ∷ "pid" ∷ "comm" ∷ []

  abbrev pub extra_of : Value → Fields → Fields
  extra_of (obj raw) d = extra_from extra_keys raw d
  extra_of v d = d

  -- `event.update(_extra_fields(kind, row))`; the keys differ.
  unfoldable pub add_extra_fields : String → Fields → Fields → Fields
  unfolding extra_from get string_eq
  add_extra_fields kind row d = if kind == "ebpf_event" then extra_of (get "raw" row) d else d

  -- The loop over the items of the row.
  unfoldable pub add_row : String → Fields → Fields → Fields
  unfolding set_field field_name normalized_value flat_value
  add_row kind end d = d
  add_row kind (field key v row) d =
      add_row kind row
        (set_field (field_name kind key) (flat_value (normalized_value kind key v)) d)

  abbrev pub add_time : Option String → Fields → Fields
  add_time none d = d
  add_time (some t) d = set_field "timestamp" (str t) d

  abbrev pub start_event : String → Fields → Fields
  start_event kind row = field "schema_version" (int (pos 1)) (
      field "integration" (str "honeypot-ai")
        (field "kind" (str kind) (field "rule_name" (str (rule_name kind row)) end)))

  abbrev pub time_keys : List String
  time_keys = "timestamp" ∷ "created_at" ∷ "window_start" ∷ "first_seen" ∷ []

  unfoldable pub wazuh_event : String → Fields → Fields
  unfolding effective_kind rule_name set_field timestamp_of add_extra_fields add_row copy_aliases
  wazuh_event kind row =
      let k = effective_kind kind row in
      copy_aliases (
        add_row k row
          (add_extra_fields k row (add_time (timestamp_of time_keys row) (start_event k row))))

  abbrev collection_events : String → Items → List Fields
  collection_events kind nil = []
  collection_events kind (cons (obj row) vs) = wazuh_event kind row ∷ collection_events kind vs
  collection_events kind (cons v vs) = collection_events kind vs

  abbrev rows_of : Value → Items
  rows_of (list vs) = vs
  rows_of v = nil

  abbrev all_events : Dict String String → Fields → List Fields
  all_events [] payload = []
  all_events ((collection, kind) ∷ kinds) payload =
      collection_events kind (rows_of (get collection payload)) ++ all_events kinds payload

  -- `payload` is `report_to_dict(report)`.
  unfoldable pub report_to_wazuh_events : Fields → List Fields
  unfolding wazuh_event get
  report_to_wazuh_events payload = all_events collection_kinds payload
