-- ===== src/Parsers/Tpot.antt =====
-- src/honeypot_ai/parsers.py: the events of T-Pot records, and the choice of a parser.
use nsf_research_open_siem.Base.{
  ℕ, String, ◌<>◌, ◌||◌, List, [], ◌∷◌, Option, ◌==◌, string_eq, if◌then◌else◌,
}
use nsf_research_open_siem.Base.Text.{or_text}
use nsf_research_open_siem.Models.{Fields, Event}
use nsf_research_open_siem.Runtime.{Runtime}
use nsf_research_open_siem.Parsers.Values.{
  Library, first_value, as_int, first_string, extract_hashes, parse_timestamp,
}
use nsf_research_open_siem.Parsers.Detect.{
  has_connection, looks_like_suricata, looks_like_zeek, field_starts, tpot_type,
  source_name_from_tpot_type, detect_source,
}
use nsf_research_open_siem.Parsers.Records.{parse_ebpf, parse_cowrie, parse_dionaea, parse_suricata}
use nsf_research_open_siem.Parsers.Generic.{parse_zeek, parse_generic}

abbrev src_ip_keys : List String
src_ip_keys =
    "src_ip" ∷ "source.ip" ∷ "source.address" ∷ "source_ip" ∷ "srcip" ∷ "remote_ip"
    ∷ "remote.address" ∷ "remote.addr" ∷ "remote_host" ∷ "client_ip" ∷ "client.ip"
    ∷ "client.address" ∷ "peer.ip" ∷ "id.orig_h" ∷ "sip" ∷ "REMOTE_ADDR" ∷ []

abbrev src_port_keys : List String
src_port_keys =
    "src_port" ∷ "source.port" ∷ "source_port" ∷ "srcport" ∷ "remote_port" ∷ "remote.port"
    ∷ "client_port" ∷ "client.port" ∷ "peer.port" ∷ "id.orig_p" ∷ "sport" ∷ []

abbrev dest_ip_keys : List String
dest_ip_keys =
    "dest_ip" ∷ "dst_ip" ∷ "destination.ip" ∷ "destination.address" ∷ "destination_ip" ∷ "dstip"
    ∷ "local_ip" ∷ "local.address" ∷ "local.addr" ∷ "server_ip" ∷ "server.ip" ∷ "server.address"
    ∷ "id.resp_h" ∷ "dip" ∷ []

abbrev dest_port_keys : List String
dest_port_keys =
    "dest_port" ∷ "dst_port" ∷ "destination.port" ∷ "destination_port" ∷ "dstport" ∷ "local_port"
    ∷ "local.port" ∷ "server_port" ∷ "server.port" ∷ "id.resp_p" ∷ "dport" ∷ []

abbrev command_keys : List String
command_keys =
    "input" ∷ "command" ∷ "cmd" ∷ "request" ∷ "request_uri" ∷ "payload" ∷ "log.original" ∷ "message"
    ∷ "query" ∷ "method" ∷ "url.path" ∷ "http.request.body.content" ∷ []

abbrev domain_keys : List String
domain_keys =
    "domain" ∷ "hostname" ∷ "host" ∷ "query" ∷ "rrname" ∷ "http.hostname" ∷ "url.domain"
    ∷ "dns.question.name" ∷ "destination.domain" ∷ "server.domain" ∷ []

module _ (py : Runtime) (lib : Library) where
  unfoldable pub parse_tpot_generic : Fields → Option ℕ → Event
  parse_tpot_generic fs line =
      let source = or_text (source_name_from_tpot_type py lib (tpot_type py lib fs)) "tpot" in
      record {
        source = source;
        event_type =
            or_text
              (first_string py fs (
                "event_type" ∷ "event.action" ∷ "event.dataset" ∷ "eventid" ∷ "origin" ∷ "reason"
                ∷ "message" ∷ []))
              (source <> ".event");
        timestamp = parse_timestamp py lib (
            first_value fs (
              "timestamp" ∷ "@timestamp" ∷ "ts" ∷ "time" ∷ "event_timestamp" ∷ "event.created"
              ∷ "date" ∷ []));
        src_ip = first_string py fs src_ip_keys;
        src_port = as_int py (first_value fs src_port_keys);
        dest_ip = first_string py fs dest_ip_keys;
        dest_port = as_int py (first_value fs dest_port_keys);
        protocol = first_string py fs (
            "protocol" ∷ "proto" ∷ "transport" ∷ "app_proto" ∷ "network.protocol"
            ∷ "network.transport" ∷ "service" ∷ []);
        session = first_string py fs (
            "session" ∷ "uid" ∷ "flow_id" ∷ "session_id" ∷ "connection.id" ∷ "data.connection.id"
            ∷ "auth_id" ∷ "id" ∷ []);
        username = first_string py fs (
            "username" ∷ "user" ∷ "user.name" ∷ "source.user.name" ∷ "credentials.username"
            ∷ "login" ∷ "account" ∷ []);
        password =
            first_string py fs ("password" ∷ "credentials.password" ∷ "pass" ∷ "secret" ∷ []);
        command = first_string py fs command_keys;
        url = first_string py fs (
            "url" ∷ "url.original" ∷ "download_url" ∷ "http.url" ∷ "http.request.full_uri"
            ∷ "request_uri" ∷ "uri" ∷ []);
        domain = first_string py fs domain_keys;
        filename =
            first_string py fs (
              "filename" ∷ "file.name" ∷ "path" ∷ "file.path" ∷ "fileinfo.filename" ∷ "target"
              ∷ []);
        hashes = extract_hashes py fs;
        raw = fs;
        line_number = line;
      }

  unfoldable pub parse_tpot : Fields → Option ℕ → Event
  parse_tpot fs line =
      let kind = or_text (tpot_type py lib fs) "" in
      if kind == "cowrie" || field_starts py "eventid" "cowrie." fs
      then parse_cowrie py lib fs line
      else if kind == "dionaea" || field_starts py "origin" "dionaea." fs || has_connection fs
      then parse_dionaea py lib fs line
      else if kind == "suricata" || looks_like_suricata fs
      then parse_suricata py lib fs line
      else if looks_like_zeek fs
      then parse_zeek py lib fs line
      else parse_tpot_generic fs line

  unfoldable pub parse_record : Fields → Option String → Option ℕ → Event
  parse_record fs hint line =
      let source = or_text hint (detect_source py lib fs) in
      if source == "ebpf"
      then parse_ebpf py lib fs line
      else if source == "cowrie"
      then parse_cowrie py lib fs line
      else if source == "dionaea"
      then parse_dionaea py lib fs line
      else if source == "suricata"
      then parse_suricata py lib fs line
      else if source == "zeek"
      then parse_zeek py lib fs line
      else if source == "tpot"
      then parse_tpot fs line
      else parse_generic py lib fs line
