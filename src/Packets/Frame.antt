-- ===== src/Packets/Frame.antt =====
-- src/honeypot_ai/packets.py: one Ethernet frame.
use nsf_research_open_siem.Base.{
  ℕ, ◌+◌, ◌*◌, ◌/◌, ◌%◌, ℤ, pos, String, ◌<>◌, Bool, ◌&&◌, ◌||◌, List, Option, none, some, ◌==◌,
  nat_eq, if◌then◌else◌,
}
use nsf_research_open_siem.Base.Numbers.{leb}
use nsf_research_open_siem.Base.Dict.{length}
use nsf_research_open_siem.Base.Bytes.{take, drop, byte, big_endian_16}
use nsf_research_open_siem.Base.Text.{show}
use nsf_research_open_siem.Models.{PacketObservation}

unfoldable pub protocol_name : ℕ → String
unfolding show nat_eq
protocol_name p =
    if p == 6 then "tcp" else if p == 17 then "udp" else if p == 1 then "icmp" else "ip-" <> show p

-- `ihl`, the length of the IPv4 header in bytes
abbrev pub header_length : List ℕ → ℕ
header_length bs = byte 0 bs % 16 * 4

-- The header is one that the code goes on with.
unfoldable pub is_ipv4 : List ℕ → Bool
unfolding nat_eq byte
is_ipv4 bs =
    leb 20 (length bs)
    && byte 0 bs / 16 == 4
    && leb 20 (header_length bs)
    && leb (header_length bs) (length bs)

unfoldable pub has_ports : List ℕ → Bool
unfolding nat_eq byte
has_ports bs = (byte 9 bs == 6 || byte 9 bs == 17) && leb (header_length bs + 4) (length bs)

-- `timestamp if given`, `frame_length if given`
abbrev pub or_given {ℓ} : {A : Type ℓ} → Option A → A → A
or_given none d = d
or_given (some a) d = a

-- `socket.inet_ntoa`, and the time at which the call runs.
module _ (inet_ntoa : List ℕ → String) (now : ℤ) where
  abbrev pub observation : List ℕ → Option ℤ → Option ℕ → PacketObservation
  observation bs timestamp frame_length = record {
    timestamp = or_given timestamp now;
    src_ip = inet_ntoa (take 4 (drop 12 bs));
    dest_ip = inet_ntoa (take 4 (drop 16 bs));
    src_port = if has_ports bs then some (pos (big_endian_16 (header_length bs) bs)) else none;
    dest_port = if has_ports bs then some (pos (big_endian_16 (header_length bs + 2) bs)) else none;
    protocol = protocol_name (byte 9 bs);
    length = pos (or_given frame_length (big_endian_16 2 bs));
  }

  unfoldable pub parse_ipv4_packet : List ℕ → Option ℤ → Option ℕ → Option PacketObservation
  unfolding take drop byte big_endian_16
  parse_ipv4_packet bs timestamp frame_length =
      if is_ipv4 bs then some (observation bs timestamp frame_length) else none

  unfoldable pub parse_ethernet_frame : List ℕ → Option ℤ → Option PacketObservation
  unfolding nat_eq big_endian_16 drop
  parse_ethernet_frame bs timestamp =
      if leb 14 (length bs) && big_endian_16 12 bs == 2048
      then parse_ipv4_packet (drop 14 bs) timestamp (some (length bs))
      else none
