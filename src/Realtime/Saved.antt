-- ===== src/Realtime/Saved.antt =====
-- src/honeypot_ai/realtime.py: offsets that are saved and loaded again.
use nsf_research_open_siem.Base.{ℤ, String, string_eq}
use nsf_research_open_siem.Base.Dict.{Dict}
use nsf_research_open_siem.Runtime.{Runtime}

abbrev Entry : Type 0
Entry = String × ℤ
