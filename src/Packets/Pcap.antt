-- ===== src/Packets/Pcap.antt =====
-- src/honeypot_ai/packets.py, `iter_pcap`. A generator is what it yields before it ends, and how it
-- ends.
use nsf_research_open_siem.Base.{
  ℕ, zero, suc, ◌+◌, ◌*◌, ℤ, pos, String, Bool, false, List, [], ◌∷◌, Option, none, some, ◌==◌,
  nat_eq, if◌then◌else◌,
}
use nsf_research_open_siem.Base.Numbers.{ltb}
use nsf_research_open_siem.Base.Dict.{length}
use nsf_research_open_siem.Base.Bytes.{take, drop, byte, big_endian_32, little_endian_32}
use nsf_research_open_siem.Models.{PacketObservation}
use nsf_research_open_siem.Packets.Frame.{parse_ethernet_frame}

pub data PcapError : Type 0 where
  too_short : PcapError
  unsupported_magic : PcapError
  truncated_header : PcapError
  truncated_payload : PcapError

-- How the generator ends: `none` is a return.
pub record Trace : Type 0 where
  pub yielded : List PacketObservation
  pub ending : Option PcapError

abbrev pub yields : Option PacketObservation → Trace → Trace
yields none t = t
yields (some p) t = record t { yielded = p ∷ t.yielded }

abbrev pub fails : PcapError → Trace
fails e = record { yielded = []; ending = some e }

pub data Endian : Type 0 where
  little : Endian
  big : Endian

-- `struct.unpack(f"{endian}I", …)` at an offset
unfoldable pub unpack_32 : Endian → ℕ → List ℕ → ℕ
unfolding little_endian_32 big_endian_32
unpack_32 little n bs = little_endian_32 n bs
unpack_32 big n bs = big_endian_32 n bs

-- `header[:4] == magic`
unfoldable pub has_magic : List ℕ → ℕ → ℕ → ℕ → ℕ → Bool
unfolding nat_eq byte
has_magic bs a b c d =
    if byte 0 bs == a
    then if byte 1 bs == b then if byte 2 bs == c then byte 3 bs == d else false else false
    else false

unfoldable pub endian_of : List ℕ → Option Endian
unfolding has_magic
endian_of header =
    if has_magic header 212 195 178 161
    then some little
    else if has_magic header 161 178 195 212
    then some big
    else if has_magic header 77 60 178 161
    then some little
    else if has_magic header 161 178 60 77
    then some big
    else none

module _ (inet_ntoa : List ℕ → String) (now : ℤ) where
  -- `datetime.fromtimestamp(ts_sec + ts_frac / 1_000_000)`: the double is within half a microsecond
  -- of the sum for all 32-bit fields, and is rounded to the microsecond.
  abbrev pub record_time : Endian → List ℕ → ℤ
  record_time endian h = pos (unpack_32 endian 0 h * 1_000_000 + unpack_32 endian 4 h)

  -- The loop over the records of the file; each takes 16 bytes at least, so the length of the file
  -- is fuel enough.
  unfoldable pub records : ℕ → Endian → List ℕ → Trace
  unfolding take drop unpack_32
  records zero endian bs = record { yielded = []; ending = none }
  records (suc fuel) endian [] = record { yielded = []; ending = none }
  records (suc fuel) endian (b ∷ bs) =
      let header = take 16 (b ∷ bs) in
      let incl_len = unpack_32 endian 8 header in
      let after = drop 16 (b ∷ bs) in
      let payload = take incl_len after in
      let rest = records fuel endian (drop incl_len after) in
      if ltb (length header) 16
      then fails truncated_header
      else if ltb (length payload) incl_len
      then fails truncated_payload
      else yields (parse_ethernet_frame inet_ntoa now payload (some (record_time endian header)))
          rest

  -- The bytes that set the order, once `header[:4]` is known.
  abbrev pub in_order : Option Endian → List ℕ → Trace
  in_order none bs = fails unsupported_magic
  in_order (some endian) bs = records (length bs) endian bs

  unfoldable pub iter_pcap : List ℕ → Trace
  unfolding nat_eq endian_of records
  iter_pcap bs =
      let header = take 24 bs in
      if length header == 24 then in_order (endian_of header) (drop 24 bs) else fails too_short
