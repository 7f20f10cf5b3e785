-- ===== src/Tests/Windows.antt =====
-- The theorems about endpoint windows and packets, at small inputs.
use nsf_research_open_siem.Base.{
  ℕ, zero, suc, ◌+◌, ◌*◌, ◌≤◌, ◌<◌, ℤ, pos, ◌≡◌, refl, ◌↔◌, String, true, List, [], ◌∷◌, ◌++◌, some,
  none, Option, arith, nat_eq,
}
use nsf_research_open_siem.Base.Dict.{Dict}
use nsf_research_open_siem.Base.Group.{Entries}
use nsf_research_open_siem.Base.Result.{ok}
use nsf_research_open_siem.Base.Bytes.{AreBytes, byte, take, drop, big_endian_16}
use nsf_research_open_siem.Models.{PacketObservation}
use nsf_research_open_siem.Endpoint.Time.{window_start, window_start_holds}
use nsf_research_open_siem.Endpoint.Windows.{WindowKey, event_states, weak_label}
use nsf_research_open_siem.Endpoint.Labels.{is_evident, weak_label-malicious}
use nsf_research_open_siem.Endpoint.Invariant.{IsWindow, event_states-IsWindow}
use nsf_research_open_siem.Packets.Frame.{
  parse_ethernet_frame, parse_ipv4_packet, is_ipv4, has_ports, protocol_name,
}
use nsf_research_open_siem.Packets.Bounds.{IsSound, parse_ethernet_frame-IsSound}
use nsf_research_open_siem.Packets.Pcap.{
  little, endian_of, has_magic, iter_pcap, fails, truncated_header,
}
use nsf_research_open_siem.Packets.Capture.{
  Captured, AllFit, in_micros, write_records, prepend, iter_pcap-write_records,
  iter_pcap-cut_header,
}
use nsf_research_open_siem.Tests.Sample.{sample_py, sample_event}

abbrev sample_id : String → String → ℤ → String
sample_id endpoint role start = endpoint

abbrev sample_key : WindowKey
sample_key = record { endpoint = "10.0.0.1"; role = "inbound"; start = pos 60 }

event_states-IsWindow_example :
    Entries
      (IsWindow sample_py (pos 60))
      (event_states sample_py (pos 60) ((sample_key, sample_event) ∷ []))
event_states-IsWindow_example =
    event_states-IsWindow sample_py (pos 60) ((sample_key, sample_event) ∷ [])

abbrev alarming : Dict String ℕ
alarming = ("suricata_alerts", 4) ∷ []

label_example :
    ((weak_label sample_py alarming).0 ≡ "malicious") ↔ (is_evident sample_py alarming ≡ true)
label_example = weak_label-malicious sample_py alarming

abbrev inbound : String
inbound = "inbound"

abbrev outside : Option String
outside = some "1.1.1.1"

abbrev inside : Option String
inside = some "10.0.0.1"

start_example :
    (s : ℕ) × (window_start sample_py (some (pos 61_500_000)) (pos 60) ≡ ok (pos s))
    × (s * 1_000_000 ≤ 61_500_000)
    × (61_500_000 < (s + 60) * 1_000_000)
    × ((k : ℕ) × (s ≡ k * 60))
start_example = window_start_holds sample_py 61_500_000 59 refl (omega arith)

abbrev text_of : List ℕ → String
text_of bs = "address"

abbrev zeros : ℕ → List ℕ
zeros zero = []
zeros (suc n) = 0 ∷ zeros n

-- A TCP packet from port 258 to port 80.
abbrev sample_frame : List ℕ
sample_frame = zeros 12 ++ (8 ∷ 0 ∷ 69 ∷ zeros 8) ++ (6 ∷ zeros 10) ++ (1 ∷ 2 ∷ 0 ∷ 80 ∷ [])

abbrev sample_packet : PacketObservation
sample_packet = record {
  timestamp = pos 5;
  src_ip = "address";
  dest_ip = "address";
  src_port = some (pos 258);
  dest_port = some (pos 80);
  protocol = "tcp";
  length = pos 38;
}

frame_parsed : parse_ethernet_frame text_of (pos 0) sample_frame (some (pos 5)) ≡ some sample_packet
unfolding parse_ethernet_frame parse_ipv4_packet is_ipv4 has_ports protocol_name big_endian_16 byte
    take drop nat_eq
frame_parsed = refl

are_bytes : AreBytes sample_frame
are_bytes = ground arith

parse_ethernet_frame-IsSound_example : IsSound sample_frame sample_packet
parse_ethernet_frame-IsSound_example =
    parse_ethernet_frame-IsSound text_of (pos 0) sample_frame (some (pos 5)) sample_packet are_bytes
      frame_parsed

abbrev sample_capture : List Captured
sample_capture =
    record { seconds = 1; micros = 2; original = 38; frame = sample_frame }
    ∷ record { seconds = 3; micros = 4; original = 1; frame = 7 ∷ [] }
    ∷ []

abbrev sample_header : List ℕ
sample_header = 212 ∷ 195 ∷ 178 ∷ 161 ∷ zeros 20

little_header : endian_of sample_header ≡ some little
unfolding endian_of has_magic byte nat_eq
little_header = refl

little_micros : in_micros little sample_header ≡ true
unfolding has_magic byte nat_eq
little_micros = refl

capture_fits : AllFit sample_capture
capture_fits = (
  record { seconds = omega arith; micros = omega arith; frame = omega arith },
  (record { seconds = omega arith; micros = omega arith; frame = omega arith }, tt),
)

capture_example :
    iter_pcap text_of (pos 0) (sample_header ++ write_records little sample_capture)
    ≡ prepend text_of (pos 0) sample_capture (record { yielded = []; ending = none })
capture_example =
    iter_pcap-write_records text_of (pos 0) little sample_header sample_capture refl little_micros
      capture_fits (omega arith, (omega arith, tt))

cut_example :
    iter_pcap text_of (pos 0) (sample_header ++ (write_records little sample_capture ++ 9 ∷ 9 ∷ []))
    ≡ prepend text_of (pos 0) sample_capture (fails truncated_header)
cut_example =
    iter_pcap-cut_header text_of (pos 0) little sample_header sample_capture 9 (9 ∷ []) refl
      little_header capture_fits (omega arith)
