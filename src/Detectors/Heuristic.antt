-- ===== src/Detectors/Heuristic.antt =====
-- src/honeypot_ai/detectors.py, `_heuristic_score`. Every summand is a multiple of 0.25, so the
-- score is its number of quarter points, which a double holds exactly.
use Prim.Native.Nat.{min}
use nsf_research_open_siem.Base.{
  ℕ, ◌+◌, ◌*◌, pos, ltb, leb, ltb_ℤ, String, ◌<>◌, Bool, true, false, ◌||◌, List, [], ◌∷◌, ◌++◌,
}
use nsf_research_open_siem.Base.Dict.{length}
use nsf_research_open_siem.Base.Text.{show}
use nsf_research_open_siem.Models.{SessionFeatures}

-- The running `score` and `reasons`.
abbrev pub Tally : Type 0
Tally = ℕ × List String

-- `if test: score += points; reasons.append(reason)`
unfoldable pub note : Bool → ℕ → String → Tally → Tally
note true points reason (score, reasons) = (score + points, reasons ++ reason ∷ [])
note false points reason t = t

module _ {Float : Type 0} where
  -- `session.bytes_out > 5_000_000 or session.bytes_in > 5_000_000`
  unfoldable pub large_transfer : SessionFeatures Float → Bool
  large_transfer f = ltb_ℤ (pos 5_000_000) f.bytes_out || ltb_ℤ (pos 5_000_000) f.bytes_in

  unfoldable pub access_evidence : SessionFeatures Float → Tally → Tally
  access_evidence f t0 =
      let t1 =
        note (ltb 0 f.login_failures) (min (f.login_failures * 3) 48)
          (show f.login_failures <> " failed login attempt(s)") t0 in
      let t2 =
        note (ltb 0 f.login_successes) 32
          (show f.login_successes <> " successful honeypot login(s)") t1 in
      note (ltb 0 f.commands) (min (f.commands * 6) 48)
        (show f.commands <> " command(s) after access") t2

  unfoldable pub command_evidence : SessionFeatures Float → Tally → Tally
  command_evidence f t0 =
      let t1 =
        note (ltb 0 f.download_commands) (f.download_commands * 48)
          (show f.download_commands <> " tool or payload download command(s)") t0 in
      let t2 =
        note (ltb 0 f.reverse_shells) (f.reverse_shells * 80)
          (show f.reverse_shells <> " reverse-shell pattern(s)") t1 in
      let t3 =
        note (ltb 0 f.persistence_attempts) (f.persistence_attempts * 64)
          (show f.persistence_attempts <> " persistence attempt(s)") t2 in
      note (ltb 0 f.scanner_commands) (f.scanner_commands * 32)
        (show f.scanner_commands <> " scanning or brute-force tool command(s)") t3

  unfoldable pub indicator_evidence : SessionFeatures Float → Tally → Tally
  indicator_evidence f t0 =
      let t1 =
        note (ltb 0 f.suricata_alerts) (f.suricata_alerts * 40)
          (show f.suricata_alerts <> " Suricata alert(s)") t0 in
      let t2 =
        note (ltb 0 (length f.hashes)) (min (length f.hashes * 24) 72)
          (show (length f.hashes) <> " file hash indicator(s)") t1 in
      let t3 =
        note (ltb 0 (length f.urls)) (min (length f.urls * 24) 72)
          (show (length f.urls) <> " URL indicator(s)") t2 in
      let t4 =
        note (leb 5 (length f.passwords)) 24
          (show (length f.passwords) <> " distinct attempted password(s)") t3 in
      note (large_transfer f) 40 "large network transfer volume" t4

  unfoldable pub heuristic_score : SessionFeatures Float → Tally
  heuristic_score f = indicator_evidence f (command_evidence f (access_evidence f (0, [])))
