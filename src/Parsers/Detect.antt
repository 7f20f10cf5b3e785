-- ===== src/Parsers/Detect.antt =====
-- src/honeypot_ai/parsers.py: which sensor a record comes from.
use nsf_research_open_siem.Base.{
  pos, String, Bool, false, ◌&&◌, ◌||◌, List, [], ◌∷◌, ◌++◌, Option, none, some, map, ◌==◌,
  string_eq, if◌then◌else◌, contains,
}
use nsf_research_open_siem.Base.Equality.{option_eq}
use nsf_research_open_siem.Base.Dict.{Dict, lookup}
use nsf_research_open_siem.Base.Text.{truthy, or_text, starts_with}
use nsf_research_open_siem.Models.{Value, obj, Fields, end, field, find, get}
use nsf_research_open_siem.Runtime.{Runtime}
use nsf_research_open_siem.Endpoint.State.{int_eq}
use nsf_research_open_siem.Parsers.Values.{Library, has_field, nested, holds, as_str, as_int}

abbrev pub tpot_honeypot_types : List String
tpot_honeypot_types =
    "adbhoney" ∷ "beelzebub" ∷ "ciscoasa" ∷ "citrixhoneypot" ∷ "conpot" ∷ "cowrie" ∷ "ddospot"
    ∷ "dicompot" ∷ "dionaea" ∷ "elasticpot" ∷ "endlessh" ∷ "galah" ∷ "glutton" ∷ "go-pot"
    ∷ "h0neytr4p" ∷ "hellpot" ∷ "heralding" ∷ "honeyaml" ∷ "honeypots" ∷ "honeytrap" ∷ "ipphoney"
    ∷ "log4pot" ∷ "mailoney" ∷ "medpot" ∷ "miniprint" ∷ "redishoneypot" ∷ "sentrypeer" ∷ "snare"
    ∷ "tanner" ∷ "wordpot" ∷ []

abbrev pub tpot_nsm_types : List String
tpot_nsm_types = "fatt" ∷ "p0f" ∷ "suricata" ∷ []

abbrev pub tpot_tool_types : List String
tpot_tool_types =
    "attackmap" ∷ "autoheal" ∷ "cyberchef" ∷ "elasticsearch" ∷ "elasticvue" ∷ "ewsposter"
    ∷ "geoip-attack-map" ∷ "kibana" ∷ "logstash" ∷ "map_redis" ∷ "map_web" ∷ "nginx" ∷ "spiderfoot"
    ∷ "tpotinit" ∷ []

abbrev pub tpot_type_aliases : Dict String String
tpot_type_aliases =
    ("go pot", "go-pot")
    ∷ ("go_pot", "go-pot")
    ∷ ("honey pots", "honeypots")
    ∷ ("honey-pots", "honeypots")
    ∷ ("qhoneypots", "honeypots")
    ∷ ("q-honeypots", "honeypots")
    ∷ ("qhoney pots", "honeypots")
    ∷ ("qhoney-pots", "honeypots")
    ∷ ("redis-honeypot", "redishoneypot")
    ∷ ("geoip attack map", "geoip-attack-map")
    ∷ ("geoip_attack_map", "geoip-attack-map")
    ∷ ("snare-tanner", "snare")
    ∷ ("t-pot-attack-map", "attackmap")
    ∷ ("tpot-attack-map", "attackmap")
    ∷ []

-- `TPOT_TYPES`: the names, and those that an alias stands for.
abbrev pub tpot_types : List String
tpot_types =
    tpot_honeypot_types ++ tpot_nsm_types ++ tpot_tool_types ++ map (λ a. a.1) tpot_type_aliases

-- `TPOT_MANAGED_TYPES`
abbrev pub tpot_managed_types : List String
tpot_managed_types = tpot_types ++ map (λ a. a.0) tpot_type_aliases

abbrev pub or_name : Option String → String → String
or_name none s = s
or_name (some t) s = t

-- `TPOT_TYPE_ALIASES.get(s, s)`
unfoldable pub unalias : String → String
unfolding lookup string_eq
unalias s = or_name (lookup s tpot_type_aliases) s

unfoldable pub any_key_starts : String → Fields → Bool
unfolding starts_with
any_key_starts t end = false
any_key_starts t (field k v fs) = starts_with k t || any_key_starts t fs

-- The tests on the fields of a record that several detections share.
unfoldable pub has_connection : Fields → Bool
unfolding has_field nested holds
has_connection fs =
    has_field "connection" fs && holds (nested (obj fs) ("connection" ∷ "remote" ∷ "address" ∷ []))

unfoldable pub looks_like_suricata : Fields → Bool
unfolding has_field
looks_like_suricata fs =
    has_field "event_type" fs && (has_field "src_ip" fs || has_field "dest_ip" fs)

unfoldable pub looks_like_zeek : Fields → Bool
unfolding has_field
looks_like_zeek fs = has_field "uid" fs && has_field "id.orig_h" fs && has_field "id.resp_h" fs

module _ (py : Runtime) where
  open py use {lower, strip, str_of}

  abbrev shown : Option Value → String
  shown none = ""
  shown (some v) = str_of v

  -- `str(record.get(key, "")).startswith(start)`
  unfoldable pub field_starts : String → String → Fields → Bool
  unfolding find starts_with
  field_starts key start fs = starts_with (shown (find key fs)) start

  abbrev pub ebpf_types : List String
  ebpf_types =
      "process_exec" ∷ "process_exit" ∷ "network_connect" ∷ "file_access" ∷ "privilege_change" ∷ []

  unfoldable pub is_ebpf_record : Fields → Bool
  unfolding as_str as_int get string_eq option_eq int_eq
  is_ebpf_record fs =
      as_int py (get "schema_version" fs) == some (pos 1)
      && contains (map some ebpf_types) (as_str py (get "event_type" fs))

  module _ (lib : Library) where
    open lib use {squeeze}

    unfoldable pub normalize_tpot_type : Value → Option String
    unfolding as_str string_eq
    normalize_tpot_type v =
        let text = as_str py v in
        if truthy text then some (squeeze (lower (strip (or_text text "")))) else none

    unfoldable pub tpot_type : Fields → Option String
    unfolding normalize_tpot_type unalias get string_eq
    tpot_type fs =
        let value = normalize_tpot_type (get "type" fs) in
        if truthy value && contains tpot_managed_types (or_text value "")
        then some (unalias (or_text value ""))
        else none

    unfoldable pub source_name_from_tpot_type : Option String → Option String
    unfolding unalias string_eq
    source_name_from_tpot_type value =
        let normalized = unalias (lower (strip (or_text value ""))) in
        if truthy value && contains tpot_types normalized then some normalized else none

    unfoldable pub is_tpot_record : Fields → Bool
    unfolding tpot_type any_key_starts string_eq
    is_tpot_record fs = truthy (tpot_type fs) || any_key_starts "t-pot_" fs

    unfoldable pub detect_source : Fields → String
    unfolding is_ebpf_record has_connection looks_like_suricata looks_like_zeek is_tpot_record
    detect_source fs =
        if is_ebpf_record fs
        then "ebpf"
        else if field_starts "eventid" "cowrie." fs
        then "cowrie"
        else if field_starts "origin" "dionaea." fs
        then "dionaea"
        else if has_connection fs
        then "dionaea"
        else if looks_like_suricata fs
        then "suricata"
        else if looks_like_zeek fs
        then "zeek"
        else if is_tpot_record fs
        then "tpot"
        else "generic"
