-- ===== src/Parsers/Kept.antt =====
-- src/honeypot_ai/parsers.py: what every parsed event keeps of its record.
use nsf_research_open_siem.Base.{ℕ, ◌≡◌, refl, String, Option, string_eq, arith}
use nsf_research_open_siem.Models.{Fields, Event}
use nsf_research_open_siem.Runtime.{Runtime}
use nsf_research_open_siem.Parsers.Values.{Library}
use nsf_research_open_siem.Parsers.Records.{
  parse_ebpf, parse_cowrie, parse_dionaea, dionaea_connection, dionaea_incident, parse_suricata,
}
use nsf_research_open_siem.Parsers.Generic.{
  zeek_conn, parse_zeek, parse_zeek_http, parse_zeek_dns, parse_generic,
}
use nsf_research_open_siem.Parsers.Tpot.{parse_tpot, parse_tpot_generic, parse_record}

-- The event holds the record and the number of its line.
pub record Keeps (fs : Fields) (line : Option ℕ) (e : Event) : Type 0 where
  pub raw : e.raw ≡ fs
  pub line_number : e.line_number ≡ line

module _ (py : Runtime) (lib : Library) (fs : Fields) (line : Option ℕ) where
  parse_ebpf-Keeps : Keeps fs line (parse_ebpf py lib fs line)
  unfolding parse_ebpf
  parse_ebpf-Keeps = record { raw = refl; line_number = refl }

  parse_cowrie-Keeps : Keeps fs line (parse_cowrie py lib fs line)
  unfolding parse_cowrie
  parse_cowrie-Keeps = record { raw = refl; line_number = refl }

  parse_dionaea-Keeps : Keeps fs line (parse_dionaea py lib fs line)
  unfolding parse_dionaea dionaea_connection dionaea_incident
  parse_dionaea-Keeps = record { raw = ground arith; line_number = ground arith }

  parse_suricata-Keeps : Keeps fs line (parse_suricata py lib fs line)
  unfolding parse_suricata
  parse_suricata-Keeps = record { raw = refl; line_number = refl }

  parse_zeek-Keeps : Keeps fs line (parse_zeek py lib fs line)
  unfolding parse_zeek parse_zeek_http parse_zeek_dns zeek_conn
  parse_zeek-Keeps = record { raw = ground arith; line_number = ground arith }

  parse_generic-Keeps : Keeps fs line (parse_generic py lib fs line)
  unfolding parse_generic
  parse_generic-Keeps = record { raw = refl; line_number = refl }

  parse_tpot-Keeps : Keeps fs line (parse_tpot py lib fs line)
  unfolding parse_tpot parse_tpot_generic
  parse_tpot-Keeps = record {
    raw = ground (
      arith, parse_cowrie-Keeps.raw, parse_dionaea-Keeps.raw, parse_suricata-Keeps.raw,
      parse_zeek-Keeps.raw,
    );
    line_number = ground (
      arith, parse_cowrie-Keeps.line_number, parse_dionaea-Keeps.line_number,
      parse_suricata-Keeps.line_number, parse_zeek-Keeps.line_number,
    );
  }

  -- Whatever the sensor, the event of a record holds the whole record and the number of its line.
  pub parse_record-Keeps : (hint : Option String) → Keeps fs line (parse_record py lib fs hint line)
  unfolding parse_record
  parse_record-Keeps hint = record {
    raw = ground (
      arith, parse_ebpf-Keeps.raw, parse_cowrie-Keeps.raw, parse_dionaea-Keeps.raw,
      parse_suricata-Keeps.raw, parse_zeek-Keeps.raw, parse_tpot-Keeps.raw, parse_generic-Keeps.raw,
    );
    line_number = ground (
      arith, parse_ebpf-Keeps.line_number, parse_cowrie-Keeps.line_number,
      parse_dionaea-Keeps.line_number, parse_suricata-Keeps.line_number,
      parse_zeek-Keeps.line_number, parse_tpot-Keeps.line_number, parse_generic-Keeps.line_number,
    );
  }
