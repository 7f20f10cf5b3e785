-- ===== src/Packets/Capture.antt =====
-- src/honeypot_ai/packets.py: capture files, written and read back by `iter_pcap`.
use nsf_research_open_siem.Base.{
  ℕ, zero, suc, ◌+◌, ◌*◌, ◌/◌, ◌%◌, ◌≤◌, ◌<◌, ℤ, pos, ◌≡◌, refl, ap, ◌∙◌, String, Bool, true, false,
  List, [], ◌∷◌, ◌++◌, Option, none, some, arith, nat_eq,
}
use mathlib.Core.List.{append_assoc, append-nil}
use mathlib.Core.Path.{subst}
use nsf_research_open_siem.Base.Numbers.{ltb}
use nsf_research_open_siem.Base.Dict.{length, length-append}
use nsf_research_open_siem.Base.Bytes.{
  take, drop, take_all, drop_all, length-drop, pack_32_little, pack_32_big, little_endian_32,
  big_endian_32, big_endian_16, byte,
}
use nsf_research_open_siem.Models.{PacketObservation}
use nsf_research_open_siem.Packets.Frame.{parse_ethernet_frame}
use nsf_research_open_siem.Packets.Pcap.{
  truncated_header, Trace, yields, fails, Endian, little, big, unpack_32, has_magic, endian_of,
  records, iter_pcap,
}

length-rest : (b : ℕ) (bs : List ℕ) (n : ℕ) → length (drop n (drop 16 (b ∷ bs))) ≤ length bs
unfolding drop
length-rest b bs n = omega (arith, length-drop n (drop 15 bs), length-drop 15 bs)

module _ (inet_ntoa : List ℕ → String) (now : ℤ) where
  -- The loop does not depend on the fuel, from the length of the file on.
  pub records_fuel :
      (f g : ℕ) (endian : Endian) (bs : List ℕ)
      → length bs ≤ f
      → length bs ≤ g
      → records inet_ntoa now f endian bs ≡ records inet_ntoa now g endian bs
  unfolding records
  records_fuel zero zero endian bs h k = refl
  records_fuel zero (suc g) endian [] h k = refl
  records_fuel (suc f) zero endian [] h k = refl
  records_fuel zero (suc g) endian (b ∷ bs) h k = absurd (omega (arith, h))
  records_fuel (suc f) zero endian (b ∷ bs) h k = absurd (omega (arith, k))
  records_fuel (suc f) (suc g) endian [] h k = refl
  records_fuel (suc f) (suc g) endian (b ∷ bs) h k =
      let n = unpack_32 endian 8 (take 16 (b ∷ bs)) in
      let rest = drop n (drop 16 (b ∷ bs)) in
      rw
        (records_fuel f g endian rest (omega (arith, length-rest b bs n, h))
          (omega (arith, length-rest b bs n, k)))
        refl

-- A frame and the time at which it was captured.
pub record Captured : Type 0 where
  pub seconds : ℕ
  pub micros : ℕ
  pub original : ℕ
  pub frame : List ℕ

-- The fields fit the record's 32-bit fields.
pub record Fits (c : Captured) : Type 0 where
  pub seconds : c.seconds < 4_294_967_296
  pub micros : c.micros < 4_294_967_296
  pub frame : length c.frame < 4_294_967_296

unfoldable pub pack_32 : Endian → ℕ → List ℕ
unfolding pack_32_little pack_32_big
pack_32 little n = pack_32_little n
pack_32 big n = pack_32_big n

unfoldable pub write_record : Endian → Captured → List ℕ
unfolding pack_32
write_record e c =
    pack_32 e c.seconds
    ++ pack_32 e c.micros
    ++ pack_32 e (length c.frame)
    ++ pack_32 e c.original
    ++ c.frame

unfoldable pub write_records : Endian → List Captured → List ℕ
write_records e [] = []
write_records e (c ∷ cs) = write_record e c ++ write_records e cs

pub little_value :
    (n : ℕ)
    → n < 4_294_967_296
    → n % 256 + n / 256 % 256 * 256 + n / 65_536 % 256 * 65_536 + n / 16_777_216 % 256 * 16_777_216
      ≡ n
little_value n h = omega arith

pub big_value :
    (n : ℕ)
    → n < 4_294_967_296
    → (n / 16_777_216 % 256 * 256 + n / 65_536 % 256) * 65_536 + (n / 256 % 256 * 256 + n % 256) ≡ n
big_value n h = omega arith

-- A list of bytes begins with the header of a captured frame, followed by the frame.
record Begins (e : Endian) (c : Captured) (rest : List ℕ) (b : ℕ) (bs : List ℕ) : Type 0 where
  header : List ℕ
  taken : take 16 (b ∷ bs) ≡ header
  long : length (take 16 (b ∷ bs)) ≡ 16
  left : drop 16 (b ∷ bs) ≡ c.frame ++ rest
  seconds : unpack_32 e 0 header ≡ c.seconds
  micros : unpack_32 e 4 header ≡ c.micros
  frame : unpack_32 e 8 header ≡ length c.frame

write_record-Begins :
    (e : Endian) (c : Captured) (rest : List ℕ)
    → Fits c
    → (b : ℕ) × (bs : List ℕ) × (write_record e c ++ rest ≡ b ∷ bs) × Begins e c rest b bs
unfolding take drop write_record pack_32 pack_32_little pack_32_big unpack_32 little_endian_32
    big_endian_32 big_endian_16 byte
write_record-Begins little c rest f = (
  _,
  _,
  refl,
  record {
    header = _;
    taken = refl;
    long = refl;
    left = refl;
    seconds = little_value c.seconds f.seconds;
    micros = little_value c.micros f.micros;
    frame = little_value (length c.frame) f.frame;
  },
)
write_record-Begins big c rest f = (
  _,
  _,
  refl,
  record {
    header = _;
    taken = refl;
    long = refl;
    left = refl;
    seconds = big_value c.seconds f.seconds;
    micros = big_value c.micros f.micros;
    frame = big_value (length c.frame) f.frame;
  },
)

ltb_irrefl : (n : ℕ) → ltb n n ≡ false
ltb_irrefl n = ground arith

length-take_le : (n : ℕ) (xs : List ℕ) → length (take n xs) ≤ length xs
unfolding take
length-take_le zero xs = omega arith
length-take_le (suc n) [] = omega arith
length-take_le (suc n) (x ∷ xs) = omega (arith, length-take_le n xs)

ltb-take : (n : ℕ) (xs : List ℕ) → length xs < n → ltb (suc (length (take n xs))) (suc n) ≡ true
ltb-take n xs h = ground (arith, length-take_le n xs)

take_header : (header bs : List ℕ) → length header ≡ 24 → take 24 (header ++ bs) ≡ header
take_header header bs h = subst (λ n. take n (header ++ bs) ≡ header) h (take_all header bs)

drop_header : (header bs : List ℕ) → length header ≡ 24 → drop 24 (header ++ bs) ≡ bs
drop_header header bs h = subst (λ n. drop n (header ++ bs) ≡ bs) h (drop_all header bs)

abbrev pub AllFit : List Captured → Type 0
AllFit [] = Unit
AllFit (c ∷ cs) = Fits c × AllFit cs

-- The fractions are microseconds.
abbrev pub AllMicros : List Captured → Type 0
AllMicros [] = Unit
AllMicros (c ∷ cs) = (c.micros < 1_000_000) × AllMicros cs

-- The magic number of microseconds, in a byte order.
abbrev pub in_micros : Endian → List ℕ → Bool
in_micros little header = has_magic header 212 195 178 161
in_micros big header = has_magic header 161 178 195 212

endian_of-micros :
    (e : Endian) (header : List ℕ) → in_micros e header ≡ true → endian_of header ≡ some e
unfolding endian_of has_magic
endian_of-micros little header h = rw h refl
endian_of-micros big header h = ground (arith, h)

-- One more for each record.
abbrev count : List Captured → ℕ → ℕ
count [] n = n
count (c ∷ cs) n = suc (count cs n)

count_le : (cs : List Captured) (n : ℕ) → n ≤ count cs n
count_le [] n = omega arith
count_le (c ∷ cs) n = omega (arith, count_le cs n)

module _ (inet_ntoa : List ℕ → String) (now : ℤ) where
  -- What a record should give.
  abbrev pub packet_of : Captured → Option PacketObservation
  packet_of c =
      parse_ethernet_frame inet_ntoa now c.frame (some (pos (c.seconds * 1_000_000 + c.micros)))

  abbrev pub prepend : List Captured → Trace → Trace
  prepend [] t = t
  prepend (c ∷ cs) t = yields (packet_of c) (prepend cs t)

  step :
      (fuel : ℕ) (e : Endian) (c : Captured) (rest : List ℕ) (b : ℕ) (bs : List ℕ)
      → Begins e c rest b bs
      → records inet_ntoa now (suc fuel) e (b ∷ bs)
        ≡ yields (packet_of c) (records inet_ntoa now fuel e rest)
  unfolding records
  step fuel e c rest b bs h =
      rw (h.long, h.left, h.taken, h.frame, h.seconds, h.micros, take_all, drop_all, ltb_irrefl)
        refl

  records-write_record :
      (fuel : ℕ) (e : Endian) (c : Captured) (rest : List ℕ)
      → Fits c
      → records inet_ntoa now (suc fuel) e (write_record e c ++ rest)
        ≡ yields (packet_of c) (records inet_ntoa now fuel e rest)
  records-write_record fuel e c rest f =
      let (b, bs, s, h) = write_record-Begins e c rest f in rw s (step fuel e c rest b bs h)

  records-write_records :
      (fuel : ℕ) (e : Endian) (cs : List Captured) (tail : List ℕ)
      → AllFit cs
      → records inet_ntoa now (count cs fuel) e (write_records e cs ++ tail)
        ≡ prepend cs (records inet_ntoa now fuel e tail)
  unfolding write_records
  records-write_records fuel e [] tail f = refl
  records-write_records fuel e (c ∷ cs) tail (f, fs) =
      ap (records inet_ntoa now (suc (count cs fuel)) e)
        (append_assoc (write_record e c) (write_records e cs) tail)
      ∙ records-write_record (count cs fuel) e c (write_records e cs ++ tail) f
      ∙ ap (yields (packet_of c)) (records-write_records fuel e cs tail fs)

  read_back :
      (e : Endian) (header : List ℕ) (cs : List Captured) (tail : List ℕ)
      → length header ≡ 24
      → endian_of header ≡ some e
      → AllFit cs
      → iter_pcap inet_ntoa now (header ++ (write_records e cs ++ tail))
        ≡ prepend cs (records inet_ntoa now (length tail) e tail)
  unfolding iter_pcap
  read_back e header cs tail h o f =
      let bs = write_records e cs ++ tail in
      let n = length bs in
      rw (take_header header bs h, drop_header header bs h, h, o)
        (records_fuel inet_ntoa now n (count cs n) e bs (omega arith) (count_le cs n)
          ∙ records-write_records n e cs tail f
          ∙ ap (prepend cs) (
              records_fuel inet_ntoa now n (length tail) e tail
                (omega (arith, length-append (write_records e cs) tail)) (omega arith)))

  cut :
      (e : Endian) (b : ℕ) (tail : List ℕ)
      → length tail < 15
      → records inet_ntoa now (suc (length tail)) e (b ∷ tail) ≡ fails truncated_header
  unfolding records take
  cut e b tail l = rw (ltb-take 15 tail l) refl

  -- A capture file whose magic number says microseconds, in either byte order, and whose records have
  -- fewer than a million of them and fields that fit, gives the packets of its frames in order, each
  -- at its record's time, and ends with a return.
  pub iter_pcap-write_records :
      (e : Endian) (header : List ℕ) (cs : List Captured)
      → length header ≡ 24
      → in_micros e header ≡ true
      → AllFit cs
      → AllMicros cs
      → iter_pcap inet_ntoa now (header ++ write_records e cs)
        ≡ prepend cs (record { yielded = []; ending = none })
  unfolding records
  iter_pcap-write_records e header cs h o f m =
      subst (λ l. iter_pcap inet_ntoa now (header ++ l) ≡ prepend cs (records inet_ntoa now 0 e []))
        (append-nil (write_records e cs))
        (read_back e header cs [] h (endian_of-micros e header o) f)

  -- The same file cut within the header of its next record gives the same packets before it raises.
  pub iter_pcap-cut_header :
      (e : Endian) (header : List ℕ) (cs : List Captured) (b : ℕ) (tail : List ℕ)
      → length header ≡ 24
      → endian_of header ≡ some e
      → AllFit cs
      → length tail < 15
      → iter_pcap inet_ntoa now (header ++ (write_records e cs ++ b ∷ tail))
        ≡ prepend cs (fails truncated_header)
  iter_pcap-cut_header e header cs b tail h o f l =
      read_back e header cs (b ∷ tail) h o f ∙ ap (prepend cs) (cut e b tail l)
