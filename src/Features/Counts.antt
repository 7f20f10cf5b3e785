-- ===== src/Features/Counts.antt =====
-- src/honeypot_ai/features.py: what aggregation keeps of the log as a whole.
use nsf_research_open_siem.Base.{
  ℕ, ◌+◌, ◌≡◌, refl, Bool, true, false, List, [], ◌∷◌, some, map, sum, arith,
}
use nsf_research_open_siem.Base.Dict.{length, values}
use nsf_research_open_siem.Base.Group.{sum-group}
use nsf_research_open_siem.Models.{Event, SessionFeatures}
use nsf_research_open_siem.Runtime.{Runtime}
use nsf_research_open_siem.Mitre.{
  login_failed, reverse_shell_tokens, persistence_tokens, scanner_tokens,
}
use nsf_research_open_siem.Base.Text.{truthy}
use nsf_research_open_siem.Features.Defs.{
  session_key, bump, login_success, downloads, command_has, shell_tokens, is_alert, is_source,
  new_session, apply_event, aggregate_sessions,
}

-- How many events pass a test.
abbrev pub count : (Event → Bool) → List Event → ℕ
count p es = sum (map (λ e. bump (p e) 0) es)

module _ (py : Runtime) where
  open py use {Float}

  abbrev Total : (SessionFeatures Float → ℕ) → (Event → ℕ) → Type 0
  Total m n = (es : List Event) → sum (map m (aggregate_sessions py es)) ≡ sum (map n es)

  total :
      (m : SessionFeatures Float → ℕ) (n : Event → ℕ)
      → ((e : Event) → m (new_session py e) ≡ 0)
      → ((e : Event) (f : SessionFeatures Float) → m (apply_event py e f) ≡ m f + n e)
      → Total m n
  unfolding aggregate_sessions values sum
  total m n z s es =
      omega (
        arith,
        sum-group (λ e. some (session_key e)) (new_session py) (apply_event py) m n z s es [],
      )

  bump_add : (b : Bool) (n : ℕ) → bump b n ≡ n + bump b 0
  bump_add true n = omega arith
  bump_add false n = omega arith

  sum_ones : (es : List Event) → sum (map (λ _. 1) es) ≡ length es
  unfolding sum
  sum_ones [] = refl
  sum_ones (e ∷ es) = omega (arith, sum_ones es)

  -- The sessions' totals add up to the number of events of the log.
  pub total_events-aggregate_sessions :
      (es : List Event) → sum (map (λ f. f.total_events) (aggregate_sessions py es)) ≡ length es
  unfolding new_session apply_event
  total_events-aggregate_sessions es =
      omega (arith, total (λ f. f.total_events) (λ _. 1) (λ e. refl) (λ e f. refl) es, sum_ones es)

  -- Each counter, summed over the sessions, is the number of events in the log that it is about.
  pub counters-aggregate_sessions :
      (es : List Event)
      → (sum (map (λ f. f.login_failures) (aggregate_sessions py es)) ≡ count (login_failed py) es)
        × (sum (map (λ f. f.login_successes) (aggregate_sessions py es))
            ≡ count (login_success py) es)
        × (sum (map (λ f. f.commands) (aggregate_sessions py es))
            ≡ count (λ e. truthy e.command) es)
        × (sum (map (λ f. f.download_commands) (aggregate_sessions py es))
            ≡ count (downloads py) es)
        × (sum (map (λ f. f.reverse_shells) (aggregate_sessions py es))
            ≡ count (command_has py reverse_shell_tokens) es)
        × (sum (map (λ f. f.persistence_attempts) (aggregate_sessions py es))
            ≡ count (command_has py persistence_tokens) es)
        × (sum (map (λ f. f.scanner_commands) (aggregate_sessions py es))
            ≡ count (command_has py scanner_tokens) es)
        × (sum (map (λ f. f.suspicious_shells) (aggregate_sessions py es))
            ≡ count (command_has py shell_tokens) es)
        × (sum (map (λ f. f.suricata_alerts) (aggregate_sessions py es)) ≡ count is_alert es)
        × (sum (map (λ f. f.dionaea_connections) (aggregate_sessions py es))
            ≡ count (is_source "dionaea") es)
        × (sum (map (λ f. f.network_connections) (aggregate_sessions py es))
            ≡ count (is_source "zeek") es)
  unfolding new_session apply_event
  counters-aggregate_sessions es = (
    total _ _ (λ e. refl) (λ e f. bump_add _ _) es,
    total _ _ (λ e. refl) (λ e f. bump_add _ _) es,
    total _ _ (λ e. refl) (λ e f. bump_add _ _) es,
    total _ _ (λ e. refl) (λ e f. bump_add _ _) es,
    total _ _ (λ e. refl) (λ e f. bump_add _ _) es,
    total _ _ (λ e. refl) (λ e f. bump_add _ _) es,
    total _ _ (λ e. refl) (λ e f. bump_add _ _) es,
    total _ _ (λ e. refl) (λ e f. bump_add _ _) es,
    total _ _ (λ e. refl) (λ e f. bump_add _ _) es,
    total _ _ (λ e. refl) (λ e f. bump_add _ _) es,
    total _ _ (λ e. refl) (λ e f. bump_add _ _) es,
  )
