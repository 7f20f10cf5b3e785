-- ===== src/Packets/Bounds.antt =====
-- src/honeypot_ai/packets.py: what holds of every packet that a frame gives.
use nsf_research_open_siem.Base.{
  ℕ, ◌+◌, ◌≤◌, ◌<◌, ℤ, pos, negsuc, ◌≡◌, refl, ◌⊎◌, inl, inr, String, Bool, true, false, List,
  Option, none, some, ◌≢◌, arith, Bool-cases, nat_eq, if◌then◌else◌, ◌==◌, ◌&&◌,
}
use nsf_research_open_siem.Base.Numbers.{leb}
use mathlib.Core.Path.{subst}
use mathlib.Core.Option.{some-injective, none-ne-some}
use nsf_research_open_siem.Base.Dict.{length}
use nsf_research_open_siem.Base.Bytes.{
  byte, drop, AreBytes, drop-AreBytes, big_endian_16, big_endian_16_lt, length-drop,
}
use nsf_research_open_siem.Models.{PacketObservation}
use nsf_research_open_siem.Packets.Frame.{
  protocol_name, is_ipv4, has_ports, header_length, observation, parse_ipv4_packet,
  parse_ethernet_frame,
}

abbrev pub IsPort : Option ℤ → Type 0
IsPort none = Unit
IsPort (some (pos n)) = n < 65_536
IsPort (some (negsuc n)) = ⊥

-- Either both ports are missing, or both are there and the protocol has ports.
abbrev pub PortsAgree : PacketObservation → Type 0
PortsAgree p =
    ((p.src_port ≡ none) × (p.dest_port ≡ none))
    ⊎ ((s : ℤ) × (d : ℤ) × (p.src_port ≡ some s)
        × (p.dest_port ≡ some d)
        × ((p.protocol ≡ "tcp") ⊎ (p.protocol ≡ "udp")))

pub record IsSound (bs : List ℕ) (p : PacketObservation) : Type 0 where
  pub counted : p.length ≡ pos (length bs)
  pub headers : 34 ≤ length bs
  pub header_words : 20 ≤ header_length (drop 14 bs)
  pub header : 14 + header_length (drop 14 bs) ≤ length bs
  pub with_ports : p.src_port ≢ none → 14 + header_length (drop 14 bs) + 4 ≤ length bs
  pub src : IsPort p.src_port
  pub dest : IsPort p.dest_port
  pub ports : PortsAgree p

tcp_or_udp :
    (bs : List ℕ)
    → has_ports bs ≡ true
    → (protocol_name (byte 9 bs) ≡ "tcp") ⊎ (protocol_name (byte 9 bs) ≡ "udp")
unfolding has_ports protocol_name
tcp_or_udp bs h = ground arith

long_header : (bs : List ℕ) → is_ipv4 bs ≡ true → 20 ≤ length bs
unfolding is_ipv4
long_header bs h = ground arith

whole_header :
    (bs : List ℕ) → is_ipv4 bs ≡ true → (20 ≤ header_length bs) × (header_length bs ≤ length bs)
unfolding is_ipv4
whole_header bs h = ground arith

long_ports : (bs : List ℕ) → has_ports bs ≡ true → header_length bs + 4 ≤ length bs
unfolding has_ports
long_ports bs h = ground arith

module _ (inet_ntoa : List ℕ → String) (now : ℤ) where
  PortsAgree-observation :
      (bs : List ℕ) (t : Option ℤ) (n : Option ℕ) → PortsAgree (observation inet_ntoa now bs t n)
  PortsAgree-observation bs t n = elim (Bool-cases (has_ports bs)) [
    | inl h ↦ rw h (inr (_, _, refl, refl, tcp_or_udp bs h))
    | inr h ↦ rw h (inl (refl, refl))
  ]

  IsPort-observation :
      (bs : List ℕ) (n : ℕ) (b : Bool)
      → AreBytes bs
      → IsPort (if b then some (pos (big_endian_16 n bs)) else none)
  IsPort-observation bs n true h = big_endian_16_lt n bs h
  IsPort-observation bs n false h = tt

  observation-IsSound :
      (bs : List ℕ) (t : Option ℤ)
      → AreBytes bs
      → is_ipv4 (drop 14 bs) ≡ true
      → IsSound bs (observation inet_ntoa now (drop 14 bs) t (some (length bs)))
  observation-IsSound bs t h v =
      let rest = drop 14 bs in
      let hr = drop-AreBytes 14 bs h in
      let l = long_header rest v in
      let whole = whole_header rest v in
      record {
        counted = refl;
        headers = omega (arith, length-drop 14 bs);
        header_words = whole.0;
        header = omega (arith, length-drop 14 bs, whole.1, l);
        with_ports = λ some_port. elim (Bool-cases (has_ports rest)) [
          | inl b ↦ omega (arith, length-drop 14 bs, long_ports rest b, l)
          | inr b ↦ absurd (some_port (rw b refl))
        ];
        src = IsPort-observation rest (header_length rest) (has_ports rest) hr;
        dest = IsPort-observation rest (header_length rest + 2) (has_ports rest) hr;
        ports = PortsAgree-observation rest t (some (length bs));
      }

  -- A frame of bytes that gives a packet holds the Ethernet header and the whole IPv4 header, as long
  -- as that header says and 20 bytes at least, and four bytes more if there are ports; the packet's
  -- length is the frame's, its ports are 16-bit numbers, and it has both ports or neither, both only
  -- for TCP and UDP.
  pub parse_ethernet_frame-IsSound :
      (bs : List ℕ) (t : Option ℤ) (p : PacketObservation)
      → AreBytes bs
      → parse_ethernet_frame inet_ntoa now bs t ≡ some p
      → IsSound bs p
  unfolding parse_ethernet_frame parse_ipv4_packet
  parse_ethernet_frame-IsSound bs t p h e =
      elim (Bool-cases (leb 14 (length bs) && big_endian_16 12 bs == 2048)) [
        | inl framed ↦ elim (Bool-cases (is_ipv4 (drop 14 bs))) [
          | inl headed ↦
              subst (IsSound bs) (some-injective _ p (rw (framed, headed) at e))
                (observation-IsSound bs t h headed)
          | inr not_headed ↦ absurd (none-ne-some p (rw (framed, not_headed) at e))
        ]
        | inr not_framed ↦ absurd (none-ne-some p (rw not_framed at e))
      ]
