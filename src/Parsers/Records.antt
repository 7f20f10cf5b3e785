-- ===== src/Parsers/Records.antt =====
-- src/honeypot_ai/parsers.py: the event of one record, for each kind of sensor.
use nsf_research_open_siem.Base.{
  ℕ, ℤ, String, ◌<>◌, Bool, true, false, List, [], ◌∷◌, Option, none, some, ◌==◌, string_eq,
  if◌then◌else◌,
}
use nsf_research_open_siem.Base.Text.{or_text, or_else}
use nsf_research_open_siem.Models.{
  Value, null, list, obj, Items, nil, cons, Fields, get, mapping, Event,
}
use nsf_research_open_siem.Runtime.{Runtime}
use nsf_research_open_siem.Parsers.Values.{
  Library, or_value, first_value, insert_all, as_str, as_int, first_string, http_url,
  extract_hashes, parse_timestamp,
}

-- `isinstance(value, Mapping)`
abbrev pub is_mapping : Value → Bool
is_mapping (obj fs) = true
is_mapping v = false

-- `" ".join((a, b))`, of the parts that are not empty
unfoldable pub join_two : String → String → String
unfolding string_eq
join_two a b = if a == "" then b else if b == "" then a else a <> " " <> b

-- `s or None`
unfoldable pub unless_empty : String → Option String
unfolding string_eq
unless_empty s = if s == "" then none else some s

module _ (py : Runtime) (lib : Library) where
  open py use {lower, strip, str_of}

  abbrev time_at : Fields → List String → Option ℤ
  time_at fs ks = parse_timestamp py lib (first_value fs ks)

  abbrev text_at : Fields → String → Option String
  text_at fs k = as_str py (get k fs)

  abbrev int_at : Fields → String → Option ℤ
  int_at fs k = as_int py (get k fs)

  abbrev first_int : Fields → List String → Option ℤ
  first_int fs ks = as_int py (first_value fs ks)

  abbrev and_item : Value → Bool → String → String
  and_item null first rest = rest
  and_item v true rest = str_of v <> rest
  and_item v false rest = " " <> str_of v <> rest

  abbrev still_first : Value → Bool → Bool
  still_first null first = first
  still_first v first = false

  -- `" ".join(str(item) for item in args if item is not None)`
  join_items : Bool → Items → String
  join_items first nil = ""
  join_items first (cons v vs) = and_item v first (join_items (still_first v first) vs)

  unfoldable pub argument_text : Value → String
  unfolding join_items as_str
  argument_text (list vs) = join_items true vs
  argument_text v = or_text (as_str py v) ""

  unfoldable pub parse_ebpf : Fields → Option ℕ → Event
  unfolding argument_text join_two unless_empty
  parse_ebpf fs line = record {
    source = "ebpf";
    event_type = "ebpf." <> or_text (text_at fs "event_type") "event";
    timestamp = time_at fs ("timestamp" ∷ "@timestamp" ∷ "time" ∷ []);
    src_ip = first_string py fs ("src_ip" ∷ "source.ip" ∷ []);
    src_port = first_int fs ("src_port" ∷ "source.port" ∷ []);
    dest_ip = first_string py fs ("dest_ip" ∷ "destination.ip" ∷ []);
    dest_port = first_int fs ("dest_port" ∷ "destination.port" ∷ []);
    protocol = first_string py fs ("protocol" ∷ "network.transport" ∷ []);
    session = or_else (first_string py fs ("container_id" ∷ "cgroup_id" ∷ [])) (text_at fs "pid");
    username = none;
    password = none;
    command = unless_empty (
        strip (
          join_two (or_text (text_at fs "binary") "") (argument_text (get "arguments_sample" fs))));
    url = none;
    domain = none;
    filename = first_string py fs ("filename" ∷ "file.path" ∷ "path" ∷ []);
    hashes = [];
    raw = fs;
    line_number = line;
  }

  unfoldable pub parse_cowrie : Fields → Option ℕ → Event
  parse_cowrie fs line = record {
    source = "cowrie";
    event_type = or_text (text_at fs "eventid") "cowrie.unknown";
    timestamp = time_at fs ("timestamp" ∷ "@timestamp" ∷ "ts" ∷ []);
    src_ip = text_at fs "src_ip";
    src_port = int_at fs "src_port";
    dest_ip = first_string py fs ("dst_ip" ∷ "dest_ip" ∷ []);
    dest_port = first_int fs ("dst_port" ∷ "dest_port" ∷ []);
    protocol = text_at fs "protocol";
    session = text_at fs "session";
    username = text_at fs "username";
    password = text_at fs "password";
    command = first_string py fs ("input" ∷ "command" ∷ "cmd" ∷ []);
    url = first_string py fs ("url" ∷ "download_url" ∷ "http.url" ∷ []);
    domain = none;
    filename = text_at fs "filename";
    hashes = extract_hashes py fs;
    raw = fs;
    line_number = line;
  }

  -- A connection, with the fields of its two ends.
  unfoldable pub dionaea_connection : Fields → Fields → Option ℕ → Event
  dionaea_connection fs connection line =
      let remote = mapping (get "remote" connection) in
      let local = mapping (get "local" connection) in
      record {
        source = "dionaea";
        event_type =
            or_text (text_at fs "origin")
              ("dionaea.connection." <> or_text (text_at connection "type") "event");
        timestamp = time_at fs ("timestamp" ∷ "@timestamp" ∷ "ts" ∷ []);
        src_ip = text_at remote "address";
        src_port = int_at remote "port";
        dest_ip = text_at local "address";
        dest_port = int_at local "port";
        protocol = as_str py (or_value (get "protocol" connection) (get "transport" connection));
        session = none;
        username = first_string py fs ("username" ∷ "credentials.username" ∷ []);
        password = first_string py fs ("password" ∷ "credentials.password" ∷ []);
        command = none;
        url = first_string py fs ("url" ∷ "download_url" ∷ []);
        domain = none;
        filename = first_string py fs ("filename" ∷ "path" ∷ []);
        hashes = extract_hashes py fs;
        raw = fs;
        line_number = line;
      }

  unfoldable pub dionaea_incident : Fields → Option ℕ → Event
  dionaea_incident fs line =
      let data_fields = mapping (get "data" fs) in
      let connection = mapping (get "connection" data_fields) in
      record {
        source = "dionaea";
        event_type = or_text (text_at fs "origin") "dionaea.incident";
        timestamp = time_at fs ("timestamp" ∷ "@timestamp" ∷ "ts" ∷ []);
        src_ip = text_at connection "remote_ip";
        src_port = int_at connection "remote_port";
        dest_ip = text_at connection "local_ip";
        dest_port = int_at connection "local_port";
        protocol = as_str py (or_value (get "protocol" connection) (get "transport" connection));
        session = none;
        username =
            first_string py fs
              ("username" ∷ "credentials.username" ∷ "data.credentials.username" ∷ []);
        password =
            first_string py fs
              ("password" ∷ "credentials.password" ∷ "data.credentials.password" ∷ []);
        command = none;
        url = first_string py data_fields ("url" ∷ "download_url" ∷ []);
        domain = none;
        filename = first_string py data_fields ("filename" ∷ "path" ∷ []);
        hashes = extract_hashes py data_fields;
        raw = fs;
        line_number = line;
      }

  unfoldable pub parse_dionaea : Fields → Option ℕ → Event
  unfolding dionaea_connection dionaea_incident
  parse_dionaea fs line =
      if is_mapping (get "connection" fs)
      then dionaea_connection fs (mapping (get "connection" fs)) line
      else dionaea_incident fs line

  unfoldable pub parse_suricata : Fields → Option ℕ → Event
  parse_suricata fs line =
      let http = mapping (get "http" fs) in
      let dns = mapping (get "dns" fs) in
      let fileinfo = mapping (get "fileinfo" fs) in
      record {
        source = "suricata";
        event_type = or_text (text_at fs "event_type") "suricata.event";
        timestamp = time_at fs ("timestamp" ∷ "@timestamp" ∷ "ts" ∷ []);
        src_ip = text_at fs "src_ip";
        src_port = int_at fs "src_port";
        dest_ip = text_at fs "dest_ip";
        dest_port = int_at fs "dest_port";
        protocol = as_str py (or_value (get "proto" fs) (get "app_proto" fs));
        session = none;
        username = none;
        password = none;
        command = none;
        url = or_else (http_url py http) (first_string py fs ("url" ∷ "http.url" ∷ []));
        domain =
            or_else
              (or_else (first_string py http ("hostname" ∷ "http_hostname" ∷ []))
                (first_string py fs ("http.hostname" ∷ "http_hostname" ∷ [])))
              (first_string py dns ("rrname" ∷ "query" ∷ []));
        filename = text_at fileinfo "filename";
        hashes = insert_all (extract_hashes py fileinfo) (extract_hashes py fs);
        raw = fs;
        line_number = line;
      }
