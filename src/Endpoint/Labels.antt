-- ===== src/Endpoint/Labels.antt =====
-- src/honeypot_ai/endpoint.py: `weak_label`, as the tests it amounts to.
use nsf_research_open_siem.Base.{
  ◌≡◌, refl, sym, ◌↔◌, String, Bool, true, false, ◌&&◌, ◌||◌, List, [], ◌∷◌, differ, string_eq,
}
use mathlib.Core.Bool.{or_assoc, false≢true}
use nsf_research_open_siem.Base.Dict.{Dict}
use nsf_research_open_siem.Runtime.{Runtime}
use nsf_research_open_siem.Endpoint.Windows.{
  has_feature, reason_if, label_for, weak_reasons, weak_label,
}

-- The features that make a window malicious each by itself.
abbrev pub evidence_names : List String
evidence_names =
    "suricata_alerts" ∷ "reverse_shells" ∷ "persistence_attempts" ∷ "download_commands"
    ∷ "hash_count" ∷ "scanner_commands" ∷ "privilege_changes" ∷ "sensitive_file_writes"
    ∷ "download_tool_execs" ∷ []

abbrev some_of : (String → Bool) → List String → Bool
some_of p [] = false
some_of p (n ∷ ns) = p n || some_of p ns

abbrev inhabited : List String → Bool
inhabited [] = false
inhabited (r ∷ rs) = true

module _ (py : Runtime) where
  open py use {Float}

  abbrev pub has : Dict String Float → String → Bool
  has = has_feature py

  -- There is evidence in the features.
  abbrev pub is_evident : Dict String Float → Bool
  is_evident d =
      some_of (has d) evidence_names || (has d "shell_execs" && has d "outbound_connects")

  inhabited-reason_if :
      (b : Bool) (r : String) (rs : List String)
      → inhabited (reason_if b r rs) ≡ (inhabited rs || b)
  inhabited-reason_if true r [] = refl
  inhabited-reason_if true r (q ∷ rs) = refl
  inhabited-reason_if false r [] = refl
  inhabited-reason_if false r (q ∷ rs) = refl

  inhabited-weak_reasons : (d : Dict String Float) → inhabited (weak_reasons py d) ≡ is_evident d
  unfolding weak_reasons
  inhabited-weak_reasons d = simp (inhabited-reason_if, or_assoc)

  label_for_lem : (rs : List String) → ((label_for rs).0 ≡ "malicious") ↔ (inhabited rs ≡ true)
  label_for_lem [] =
      ((λ h. absurd (differ "benign" "malicious" refl h)), (λ h. absurd (false≢true h)))
  label_for_lem (r ∷ rs) = ((λ h. refl), (λ h. refl))

  -- Features are labelled malicious exactly when one of nine of them is above zero, or both the
  -- shells and the outgoing connections are.
  pub weak_label-malicious :
      (d : Dict String Float) → ((weak_label py d).0 ≡ "malicious") ↔ (is_evident d ≡ true)
  unfolding weak_label
  weak_label-malicious d = rw (sym (inhabited-weak_reasons d)) (label_for_lem (weak_reasons py d))
