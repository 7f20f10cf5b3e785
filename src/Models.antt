-- ===== src/Models.antt =====
-- src/honeypot_ai/models.py, and the JSON values that records and `Event.raw` hold.
-- A datetime is its count of microseconds since 1970 in UTC: every one that the parsers make is
-- timezone-aware. A Python set is a list without repetition.
use nsf_research_open_siem.Base.{
  ℕ, ℤ, String, Bool, Option, none, some, List, if◌then◌else◌, ◌==◌, string_eq,
}
use nsf_research_open_siem.Base.Dict.{Dict}

-- What `json.loads` returns. A float is kept as the text of its `repr`.
mutual
  pub data Value : Type 0 where
    null : Value
    bool : Bool → Value
    int : ℤ → Value
    float : String → Value
    str : String → Value
    list : Items → Value
    obj : Fields → Value

  pub data Items : Type 0 where
    nil : Items
    cons : Value → Items → Items

  pub data Fields : Type 0 where
    end : Fields
    field : String → Value → Fields → Fields

-- `record.get(key)`, and whether the key is there
unfoldable pub find : String → Fields → Option Value
find k end = none
find k (field j v fs) = if k == j then some v else find k fs

abbrev pub or_null : Option Value → Value
or_null none = null
or_null (some v) = v

unfoldable pub get : String → Fields → Value
unfolding find
get k fs = or_null (find k fs)

-- `v if isinstance(v, Mapping) else {}`
abbrev pub mapping : Value → Fields
mapping (obj fs) = fs
mapping v = end

pub record Event : Type 0 where
  pub source : String
  pub event_type : String
  pub timestamp : Option ℤ
  pub src_ip : Option String
  pub src_port : Option ℤ
  pub dest_ip : Option String
  pub dest_port : Option ℤ
  pub protocol : Option String
  pub session : Option String
  pub username : Option String
  pub password : Option String
  pub command : Option String
  pub url : Option String
  pub domain : Option String
  pub filename : Option String
  pub hashes : Dict String String
  pub raw : Fields
  pub line_number : Option ℕ

pub record Ioc : Type 0 where
  pub kind : String
  pub value : String
  pub source : String
  pub context : String

-- `Float` is the type of the machine's doubles.
pub record SessionFeatures (Float : Type 0) : Type 0 where
  pub key : String
  pub src_ip : Option String
  pub first_seen : Option ℤ
  pub last_seen : Option ℤ
  pub total_events : ℕ
  pub login_failures : ℕ
  pub login_successes : ℕ
  pub commands : ℕ
  pub download_commands : ℕ
  pub reverse_shells : ℕ
  pub persistence_attempts : ℕ
  pub scanner_commands : ℕ
  pub suspicious_shells : ℕ
  pub suricata_alerts : ℕ
  pub dionaea_connections : ℕ
  pub network_connections : ℕ
  pub bytes_out : ℤ
  pub bytes_in : ℤ
  pub duration_seconds : Float
  pub usernames : List String
  pub passwords : List String
  pub urls : List String
  pub hashes : List String
  pub event_types : List String

pub record RiskFinding (Float : Type 0) : Type 0 where
  pub session_key : String
  pub src_ip : Option String
  pub score : Float
  pub severity : String
  pub reasons : List String
  pub mitre_techniques : List String
  pub anomaly_score : Float

pub record ActorProfile (Float : Type 0) : Type 0 where
  pub ip : String
  pub ip_scope : String
  pub first_seen : Option ℤ
  pub last_seen : Option ℤ
  pub total_events : ℕ
  pub source_events : ℕ
  pub destination_events : ℕ
  pub sources : List String
  pub sessions : List String
  pub event_types : List String
  pub urls : List String
  pub hashes : List String
  pub usernames : List String
  pub techniques : List String
  pub finding_score : Float
  pub finding_severities : List String

-- src/honeypot_ai/packets.py
pub record PacketObservation : Type 0 where
  pub timestamp : ℤ
  pub src_ip : String
  pub dest_ip : String
  pub src_port : Option ℤ
  pub dest_port : Option ℤ
  pub protocol : String
  pub length : ℤ
