-- ===== src/Parsers/Generic.antt =====
-- src/honeypot_ai/parsers.py: the events of Zeek records, and of records of no known kind.
use nsf_research_open_siem.Base.{
  ℕ, ℤ, String, ◌||◌, [], ◌∷◌, Option, none, some, string_eq, if◌then◌else◌,
}
use nsf_research_open_siem.Base.Text.{or_text, or_else}
use nsf_research_open_siem.Models.{Fields, get, Event}
use nsf_research_open_siem.Runtime.{Runtime}
use nsf_research_open_siem.Parsers.Values.{
  Library, has_field, or_value, first_value, build_http_url, as_str, as_int, first_string,
  extract_hashes, parse_timestamp,
}

module _ (py : Runtime) (lib : Library) where
  abbrev text_at : Fields → String → Option String
  text_at fs k = as_str py (get k fs)

  abbrev int_at : Fields → String → Option ℤ
  int_at fs k = as_int py (get k fs)

  -- What the three kinds of Zeek records share.
  unfoldable pub zeek_conn : Fields → Option ℕ → Event
  zeek_conn fs line = record {
    source = "zeek";
    event_type = "zeek.conn";
    timestamp = parse_timestamp py lib (get "ts" fs);
    src_ip = text_at fs "id.orig_h";
    src_port = int_at fs "id.orig_p";
    dest_ip = text_at fs "id.resp_h";
    dest_port = int_at fs "id.resp_p";
    protocol = as_str py (or_value (get "proto" fs) (get "service" fs));
    session = text_at fs "uid";
    username = none;
    password = none;
    command = none;
    url = none;
    domain = none;
    filename = none;
    hashes = [];
    raw = fs;
    line_number = line;
  }

  unfoldable pub parse_zeek_http : Fields → Option ℕ → Event
  unfolding zeek_conn
  parse_zeek_http fs line = record (zeek_conn fs line) {
    event_type = "zeek.http";
    protocol = some "http";
    url = build_http_url (text_at fs "host") (text_at fs "uri");
    domain = text_at fs "host";
  }

  unfoldable pub parse_zeek_dns : Fields → Option ℕ → Event
  unfolding zeek_conn
  parse_zeek_dns fs line = record (zeek_conn fs line) {
    event_type = "zeek.dns";
    protocol = or_else (text_at fs "proto") (some "dns");
    domain = text_at fs "query";
  }

  unfoldable pub parse_zeek : Fields → Option ℕ → Event
  unfolding zeek_conn parse_zeek_http parse_zeek_dns
  parse_zeek fs line =
      if has_field "query" fs
      then parse_zeek_dns fs line
      else if has_field "host" fs || has_field "uri" fs || has_field "method" fs
      then parse_zeek_http fs line
      else zeek_conn fs line

  unfoldable pub parse_generic : Fields → Option ℕ → Event
  parse_generic fs line = record {
    source = "generic";
    event_type =
        or_text (first_string py fs ("event_type" ∷ "eventid" ∷ "type" ∷ [])) "generic.event";
    timestamp =
        parse_timestamp py lib (first_value fs ("timestamp" ∷ "@timestamp" ∷ "ts" ∷ "time" ∷ []));
    src_ip = first_string py fs ("src_ip" ∷ "source_ip" ∷ "remote_ip" ∷ "client_ip" ∷ []);
    src_port =
        as_int py
          (first_value fs ("src_port" ∷ "source_port" ∷ "remote_port" ∷ "client_port" ∷ []));
    dest_ip =
        first_string py fs
          ("dest_ip" ∷ "dst_ip" ∷ "destination_ip" ∷ "local_ip" ∷ "server_ip" ∷ []);
    dest_port = as_int py (
        first_value fs
          ("dest_port" ∷ "dst_port" ∷ "destination_port" ∷ "local_port" ∷ "server_port" ∷ []));
    protocol = first_string py fs ("protocol" ∷ "proto" ∷ "transport" ∷ "app_proto" ∷ []);
    session = first_string py fs ("session" ∷ "uid" ∷ "flow_id" ∷ []);
    username = first_string py fs ("username" ∷ "credentials.username" ∷ []);
    password = first_string py fs ("password" ∷ "credentials.password" ∷ []);
    command = first_string py fs ("input" ∷ "command" ∷ "cmd" ∷ []);
    url = first_string py fs ("url" ∷ "download_url" ∷ "http.url" ∷ []);
    domain =
        first_string py fs
          ("domain" ∷ "hostname" ∷ "host" ∷ "query" ∷ "rrname" ∷ "http.hostname" ∷ []);
    filename = first_string py fs ("filename" ∷ "path" ∷ "fileinfo.filename" ∷ []);
    hashes = extract_hashes py fs;
    raw = fs;
    line_number = line;
  }
