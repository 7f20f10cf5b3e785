-- ===== src/Detectors/Score.antt =====
-- src/honeypot_ai/detectors.py: what `_heuristic_score` promises.
use Prim.Native.Nat.{min}
use mathlib.Core.List.{concat-ne-nil}
use nsf_research_open_siem.Base.{
  ℕ, ◌+◌, ◌*◌, ◌≤◌, ◌<◌, ◌≤ℤ◌, ◌≡◌, refl, ◌⊎◌, ◌↔◌, inl, inr, ◌≢◌, ltb, leb, String, Bool, true,
  false, [], if◌then◌else◌, arith,
}
use nsf_research_open_siem.Base.Dict.{length}
use nsf_research_open_siem.Models.{SessionFeatures}
use nsf_research_open_siem.Detectors.Heuristic.{
  Tally, note, large_transfer, access_evidence, command_evidence, indicator_evidence,
  heuristic_score,
}

abbrev part : Bool → ℕ → ℕ
part b n = if b then n else 0

-- The score is zero and no reason is given, or it is not zero and there is one.
Agrees : Tally → Type 0
Agrees t = ((t.0 ≡ 0) × (t.1 ≡ [])) ⊎ ((0 < t.0) × (t.1 ≢ []))

note-Agrees :
    (b : Bool) (n : ℕ) (r : String) (t : Tally)
    → (b ≡ true → 0 < n)
    → Agrees t
    → Agrees (note b n r t)
unfolding note Agrees
note-Agrees false n r t h a = a
note-Agrees true n r (s, rs) h a = inr (let p = h refl in omega arith, concat-ne-nil r rs)

zero-Agrees : Agrees (0, [])
unfolding Agrees
zero-Agrees = inl (refl, refl)

Agrees-iff : (t : Tally) → Agrees t → (t.0 ≡ 0) ↔ (t.1 ≡ [])
unfolding Agrees
Agrees-iff t a = elim a [
  | inl (z, e) ↦ (λ _. e, λ _. z)
  | inr (p, n) ↦ (λ z. absurd (omega arith), λ e. absurd (n e))
]

flat : (k : ℕ) (b : Bool) → 0 < k → b ≡ true → 0 < k
flat k b h _ = h

scaled : (n k : ℕ) → 0 < k → ltb 0 n ≡ true → 0 < n * k
scaled n k h p = grind (arith)

capped : (n k c : ℕ) → 0 < k → 0 < c → ltb 0 n ≡ true → 0 < min (n * k) c
capped n k c h g p = omega (arith, scaled n k h p)

module _ {Float : Type 0} where
  access_points : SessionFeatures Float → ℕ
  access_points f =
      part (ltb 0 f.login_failures) (min (f.login_failures * 3) 48)
      + part (ltb 0 f.login_successes) 32
      + part (ltb 0 f.commands) (min (f.commands * 6) 48)

  command_points : SessionFeatures Float → ℕ
  command_points f =
      f.download_commands * 48
      + f.reverse_shells * 80
      + f.persistence_attempts * 64
      + f.scanner_commands * 32

  indicator_points : SessionFeatures Float → ℕ
  indicator_points f =
      f.suricata_alerts * 40
      + min (length f.hashes * 24) 72
      + min (length f.urls * 24) 72
      + part (leb 5 (length f.passwords)) 24
      + part (large_transfer f) 40

  access_lem :
      (f : SessionFeatures Float) (t : Tally) → (access_evidence f t).0 ≡ t.0 + access_points f
  unfolding access_evidence access_points note
  access_lem f t = ground (arith)

  command_lem :
      (f : SessionFeatures Float) (t : Tally) → (command_evidence f t).0 ≡ t.0 + command_points f
  unfolding command_evidence command_points note
  command_lem f t = ground arith

  indicator_lem :
      (f : SessionFeatures Float) (t : Tally)
      → (indicator_evidence f t).0 ≡ t.0 + indicator_points f
  unfolding indicator_evidence indicator_points note
  indicator_lem f t = ground arith

  score-points :
      (f : SessionFeatures Float)
      → (heuristic_score f).0 ≡ access_points f + command_points f + indicator_points f
  unfolding heuristic_score
  score-points f =
      let t = access_evidence f (0, []) in
      let u = command_evidence f t in
      omega (arith, access_lem f (0, []), command_lem f t, indicator_lem f u)

  -- Every piece of evidence that `f` shows, `g` shows at least as much of.
  pub record ShowsLess (f g : SessionFeatures Float) : Type 0 where
    pub failures : f.login_failures ≤ g.login_failures
    pub successes : f.login_successes ≤ g.login_successes
    pub commands : f.commands ≤ g.commands
    pub downloads : f.download_commands ≤ g.download_commands
    pub shells : f.reverse_shells ≤ g.reverse_shells
    pub persistence : f.persistence_attempts ≤ g.persistence_attempts
    pub scans : f.scanner_commands ≤ g.scanner_commands
    pub alerts : f.suricata_alerts ≤ g.suricata_alerts
    pub hashes : length f.hashes ≤ length g.hashes
    pub urls : length f.urls ≤ length g.urls
    pub passwords : length f.passwords ≤ length g.passwords
    pub bytes_out : f.bytes_out ≤ℤ g.bytes_out
    pub bytes_in : f.bytes_in ≤ℤ g.bytes_in

  access_mono : (f g : SessionFeatures Float) → ShowsLess f g → access_points f ≤ access_points g
  unfolding access_points
  access_mono f g h = ground arith

  command_mono : (f g : SessionFeatures Float) → ShowsLess f g → command_points f ≤ command_points g
  unfolding command_points
  command_mono f g h = omega arith

  transfer_mono :
      (f g : SessionFeatures Float)
      → ShowsLess f g
      → part (large_transfer f) 40 ≤ part (large_transfer g) 40
  unfolding large_transfer
  transfer_mono f g h = ground arith

  guesses_mono :
      (f g : SessionFeatures Float)
      → ShowsLess f g
      → part (leb 5 (length f.passwords)) 24 ≤ part (leb 5 (length g.passwords)) 24
  guesses_mono f g h = ground arith

  indicator_mono :
      (f g : SessionFeatures Float) → ShowsLess f g → indicator_points f ≤ indicator_points g
  unfolding indicator_points
  indicator_mono f g h = omega (arith, transfer_mono f g h, guesses_mono f g h)

  -- More evidence never lowers the heuristic score.
  pub heuristic_score_mono :
      (f g : SessionFeatures Float) → ShowsLess f g → (heuristic_score f).0 ≤ (heuristic_score g).0
  heuristic_score_mono f g h = omega (
    arith,
    score-points f,
    score-points g,
    access_mono f g h,
    command_mono f g h,
    indicator_mono f g h,
  )

  -- Without successful logins, commands, alerts, files, addresses or large transfers, the score is
  -- at most 18 points, however many logins fail and with however many passwords.
  pub heuristic_score-guessing :
      (f : SessionFeatures Float)
      → f.login_successes ≡ 0
      → f.commands
          + f.download_commands
          + f.reverse_shells
          + f.persistence_attempts
          + f.scanner_commands
          + f.suricata_alerts
          + length f.hashes
          + length f.urls
        ≡ 0
      → large_transfer f ≡ false
      → (heuristic_score f).0 ≤ 18 * 4
  unfolding access_points command_points indicator_points
  heuristic_score-guessing f s z l = ground (arith, score-points f)

  access-Agrees : (f : SessionFeatures Float) (t : Tally) → Agrees t → Agrees (access_evidence f t)
  unfolding access_evidence
  access-Agrees f t a = note-Agrees _ _ _ _ (capped f.commands 6 48 (omega arith) (omega arith)) (
      note-Agrees _ _ _ _ (flat 32 _ (omega arith))
        (note-Agrees _ _ _ _ (capped f.login_failures 3 48 (omega arith) (omega arith)) a))

  command-Agrees :
      (f : SessionFeatures Float) (t : Tally) → Agrees t → Agrees (command_evidence f t)
  unfolding command_evidence
  command-Agrees f t a = note-Agrees _ _ _ _ (scaled f.scanner_commands 32 (omega arith)) (
      note-Agrees _ _ _ _ (scaled f.persistence_attempts 64 (omega arith)) (
        note-Agrees _ _ _ _ (scaled f.reverse_shells 80 (omega arith))
          (note-Agrees _ _ _ _ (scaled f.download_commands 48 (omega arith)) a)))

  indicator-Agrees :
      (f : SessionFeatures Float) (t : Tally) → Agrees t → Agrees (indicator_evidence f t)
  unfolding indicator_evidence
  indicator-Agrees f t a = note-Agrees _ _ _ _ (flat 40 _ (omega arith)) (
      note-Agrees _ _ _ _ (flat 24 _ (omega arith)) (
        note-Agrees _ _ _ _ (capped (length f.urls) 24 72 (omega arith) (omega arith)) (
          note-Agrees _ _ _ _ (capped (length f.hashes) 24 72 (omega arith) (omega arith))
            (note-Agrees _ _ _ _ (scaled f.suricata_alerts 40 (omega arith)) a))))

  -- A session scores zero exactly when no reason is given for it.
  pub heuristic_score-eq-zero_iff :
      (f : SessionFeatures Float) → ((heuristic_score f).0 ≡ 0) ↔ ((heuristic_score f).1 ≡ [])
  unfolding heuristic_score
  heuristic_score-eq-zero_iff f =
      Agrees-iff _ (indicator-Agrees f _ (command-Agrees f _ (access-Agrees f _ zero-Agrees)))
