-- ===== src/Endpoint/State.antt =====
-- src/honeypot_ai/endpoint.py: `_WindowState`, and what one event or packet changes in it.
use native.Mathlib.Decide.{ℕ_discrete}
use nsf_research_open_siem.Base.{
  ℕ, ℤ, pos, String, Bool, not, ◌&&◌, List, [], ◌∷◌, Option, none, some, ◌==◌, string_eq,
  if◌then◌else◌,
}
use nsf_research_open_siem.Base.Equality.{Eq, option_eq}
use nsf_research_open_siem.Base.Dict.{Dict, add, upsert}
use nsf_research_open_siem.Base.Text.{truthy, or_text}
use nsf_research_open_siem.Runtime.{Runtime}

abbrev pub feature_names : List String
feature_names =
    "event_count" ∷ "packet_count" ∷ "bytes_in" ∷ "bytes_out" ∷ "duration_seconds" ∷ "unique_peers"
    ∷ "unique_dest_ports" ∷ "unique_protocols" ∷ "unique_event_types" ∷ "login_failures"
    ∷ "login_successes" ∷ "commands" ∷ "download_commands" ∷ "reverse_shells"
    ∷ "persistence_attempts" ∷ "scanner_commands" ∷ "suricata_alerts" ∷ "dionaea_connections"
    ∷ "network_connections" ∷ "url_count" ∷ "domain_count" ∷ "hash_count" ∷ "ebpf_event_count"
    ∷ "process_execs" ∷ "shell_execs" ∷ "script_execs" ∷ "download_tool_execs" ∷ "outbound_connects"
    ∷ "sensitive_file_writes" ∷ "temp_file_writes" ∷ "privilege_changes" ∷ "unique_binaries"
    ∷ "process_fanout" ∷ []

-- The times are whole seconds since 1970.
pub record WindowState (Float : Type 0) : Type 0 where
  pub endpoint : String
  pub role : String
  pub window_start : ℤ
  pub window_end : ℤ
  pub features : Dict String Float
  pub peers : List String
  pub dest_ports : List ℤ
  pub protocols : List String
  pub event_types : List String
  pub urls : List String
  pub domains : List String
  pub hashes : List String
  pub binaries : List String
  pub source_event_count : ℕ

unfoldable pub int_discrete : Discrete ℤ
unfolding ℕ_discrete
int_discrete = hlevel ℕ_discrete

instance unfoldable pub int_eq : Eq ℤ
unfolding int_discrete
int_eq = record { dec = int_discrete }

-- `if value and value != endpoint: peers.add(value)`
unfoldable pub add_peer : Option String → String → List String → List String
unfolding add
add_peer value endpoint s =
    if truthy value && not (or_text value "" == endpoint) then add (or_text value "") s else s

-- `if port is not None: ports.add(port)`
unfoldable pub add_port : Option ℤ → List ℤ → List ℤ
unfolding add int_eq
add_port none s = s
add_port (some p) s = add p s

module _ (py : Runtime) where
  open py use {lower, Float, float_add, of_int, float_int}

  zero_features : List String → Dict String Float
  zero_features [] = []
  zero_features (n ∷ ns) = (n, of_int (pos 0)) ∷ zero_features ns

  unfoldable pub new_state : String → String → ℤ → ℤ → WindowState Float
  unfolding zero_features
  new_state endpoint role start end = record {
    endpoint = endpoint;
    role = role;
    window_start = start;
    window_end = end;
    features = zero_features feature_names;
    peers = [];
    dest_ports = [];
    protocols = [];
    event_types = [];
    urls = [];
    domains = [];
    hashes = [];
    binaries = [];
    source_event_count = 0;
  }

  -- `features[name] += x`
  unfoldable pub bump_by : String → Float → Dict String Float → Dict String Float
  unfolding upsert
  bump_by name x d = upsert name (of_int (pos 0)) (λ v. float_add v x) d

  -- `if test: features[name] += 1.0`
  unfoldable pub bump_if : Bool → String → Dict String Float → Dict String Float
  unfolding bump_by
  bump_if test name d = if test then bump_by name (of_int (pos 1)) d else d
