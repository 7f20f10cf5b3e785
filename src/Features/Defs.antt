-- ===== src/Features/Defs.antt =====
-- src/honeypot_ai/features.py, its functions.
use nsf_research_open_siem.Base.{
  ℕ, ◌+◌, ℤ, pos, ltb_ℤ, ◌+ℤ◌, String, ◌<>◌, Bool, true, false, ◌&&◌, List, [], ◌∷◌, Option, none,
  some, ◌==◌, string_eq, nat_eq, if◌then◌else◌,
}
use nsf_research_open_siem.Base.Dict.{Dict, values, add, update}
use nsf_research_open_siem.Base.Group.{group}
use nsf_research_open_siem.Base.Text.{is_in, any_in, truthy, or_text, show}
use nsf_research_open_siem.Models.{Event, SessionFeatures, Fields, get, mapping}
use nsf_research_open_siem.Runtime.{Runtime}
use nsf_research_open_siem.Mitre.{
  download_tokens, reverse_shell_tokens, persistence_tokens, scanner_tokens, any_lower_in,
  login_failed,
}

-- `event.line_number or 'unknown'`
line_label : Option ℕ → String
unfolding show
line_label none = "unknown"
line_label (some n) = if n == 0 then "unknown" else show n

unfoldable pub session_key : Event → String
unfolding line_label
session_key e =
    if truthy e.session
    then e.source <> ":" <> or_text e.session ""
    else if truthy e.src_ip
    then e.source <> ":src:" <> or_text e.src_ip ""
    else if truthy e.dest_ip
    then e.source <> ":dest:" <> or_text e.dest_ip ""
    else e.source <> ":line:" <> line_label e.line_number

-- `if test: n += 1`
abbrev pub bump : Bool → ℕ → ℕ
bump true n = n + 1
bump false n = n

-- `if v: s.add(v)`
unfoldable pub add_text : Option String → List String → List String
unfolding add
add_text v s = if truthy v then add (or_text v "") s else s

abbrev pub earlier : ℤ → Option ℤ → Option ℤ
earlier t none = some t
earlier t (some a) = if ltb_ℤ t a then some t else some a

abbrev pub later : ℤ → Option ℤ → Option ℤ
later t none = some t
later t (some b) = if ltb_ℤ b t then some t else some b

-- The two halves of `_update_time_window`.
unfoldable pub first_seen : Option ℤ → Option ℤ → Option ℤ
first_seen none a = a
first_seen (some t) a = earlier t a

unfoldable pub last_seen : Option ℤ → Option ℤ → Option ℤ
last_seen none b = b
last_seen (some t) b = later t b

abbrev pub shell_tokens : List String
shell_tokens = "bash" ∷ "/bin/sh" ∷ "python -c" ∷ "perl -e" ∷ []

unfoldable pub is_alert : Event → Bool
is_alert e = e.source == "suricata" && e.event_type == "alert"

unfoldable pub is_source : String → Event → Bool
is_source name e = e.source == name

module _ (py : Runtime) where
  open py use {lower, int_of, Float, float_of, float_add, of_int}

  -- `total += int(value)`, or nothing if `int` raises
  abbrev add_int : Option ℤ → ℤ → ℤ
  add_int none total = total
  add_int (some n) total = total +ℤ n

  sum_ints : List String → Fields → Fields → ℤ → ℤ
  sum_ints [] raw flow total = total
  sum_ints (k ∷ ks) raw flow total =
      sum_ints ks raw flow (add_int (int_of (get k flow)) (add_int (int_of (get k raw)) total))

  unfoldable pub int_from_raw : Event → List String → ℤ
  unfolding sum_ints
  int_from_raw e ks = sum_ints ks e.raw (mapping (get "flow" e.raw)) (pos 0)

  abbrev add_float : Option Float → Float → Float
  add_float none total = total
  add_float (some x) total = float_add total x

  sum_floats : List String → Fields → Fields → Float → Float
  sum_floats [] raw flow total = total
  sum_floats (k ∷ ks) raw flow total =
      sum_floats ks raw flow
        (add_float (float_of (get k flow)) (add_float (float_of (get k raw)) total))

  unfoldable pub float_from_raw : Event → List String → Float
  unfolding sum_floats
  float_from_raw e ks = sum_floats ks e.raw (mapping (get "flow" e.raw)) (of_int (pos 0))

  unfoldable pub login_success : Event → Bool
  unfolding is_in
  login_success e = e.source == "cowrie" && is_in "login.success" (lower e.event_type)

  abbrev pub command_of : Event → String
  command_of e = lower (or_text e.command "")

  -- `if event.command:` around the five tests on the command
  unfoldable pub downloads : Event → Bool
  unfolding any_lower_in
  downloads e = truthy e.command && any_lower_in py download_tokens (command_of e)

  unfoldable pub command_has : List String → Event → Bool
  unfolding any_in
  command_has tokens e = truthy e.command && any_in tokens (command_of e)

  -- `SessionFeatures(key=key, src_ip=event.src_ip)`
  unfoldable pub new_session : Event → SessionFeatures Float
  new_session e = record {
    key = session_key e;
    src_ip = e.src_ip;
    first_seen = none;
    last_seen = none;
    total_events = 0;
    login_failures = 0;
    login_successes = 0;
    commands = 0;
    download_commands = 0;
    reverse_shells = 0;
    persistence_attempts = 0;
    scanner_commands = 0;
    suspicious_shells = 0;
    suricata_alerts = 0;
    dionaea_connections = 0;
    network_connections = 0;
    bytes_out = pos 0;
    bytes_in = pos 0;
    duration_seconds = of_int (pos 0);
    usernames = [];
    passwords = [];
    urls = [];
    hashes = [];
    event_types = [];
  }

  unfoldable pub apply_event : Event → SessionFeatures Float → SessionFeatures Float
  apply_event e f = record f {
    src_ip = if truthy f.src_ip then f.src_ip else if truthy e.src_ip then e.src_ip else f.src_ip;
    first_seen = first_seen e.timestamp f.first_seen;
    last_seen = last_seen e.timestamp f.last_seen;
    total_events = f.total_events + 1;
    login_failures = bump (login_failed py e) f.login_failures;
    login_successes = bump (login_success e) f.login_successes;
    commands = bump (truthy e.command) f.commands;
    download_commands = bump (downloads e) f.download_commands;
    reverse_shells = bump (command_has reverse_shell_tokens e) f.reverse_shells;
    persistence_attempts = bump (command_has persistence_tokens e) f.persistence_attempts;
    scanner_commands = bump (command_has scanner_tokens e) f.scanner_commands;
    suspicious_shells = bump (command_has shell_tokens e) f.suspicious_shells;
    suricata_alerts = bump (is_alert e) f.suricata_alerts;
    dionaea_connections = bump (is_source "dionaea" e) f.dionaea_connections;
    network_connections = bump (is_source "zeek" e) f.network_connections;
    bytes_out = f.bytes_out +ℤ int_from_raw e ("orig_bytes" ∷ "bytes_toserver" ∷ []);
    bytes_in = f.bytes_in +ℤ int_from_raw e ("resp_bytes" ∷ "bytes_toclient" ∷ []);
    duration_seconds = float_add f.duration_seconds (float_from_raw e ("duration" ∷ "age" ∷ []));
    usernames = add_text e.username f.usernames;
    passwords = add_text e.password f.passwords;
    urls = add_text e.url f.urls;
    hashes = update (values e.hashes) f.hashes;
    event_types = add e.event_type f.event_types;
  }

  unfoldable pub sessions : List Event → Dict String (SessionFeatures Float)
  sessions es = group (λ e. some (session_key e)) new_session apply_event es []

  unfoldable pub aggregate_sessions : List Event → List (SessionFeatures Float)
  unfolding sessions
  aggregate_sessions es = values (sessions es)
