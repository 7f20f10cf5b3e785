-- ===== src/Tests/Sessions.antt =====
-- The theorems about sessions, at a small log.
use nsf_research_open_siem.Base.{ℕ, ◌≡◌, [], ◌∷◌, ◌++◌, map, sum, string_eq, some}
use nsf_research_open_siem.Base.Dict.{length, lookup}
use nsf_research_open_siem.Base.Group.{Entries}
use nsf_research_open_siem.Base.Text.{truthy}
use nsf_research_open_siem.Models.{SessionFeatures}
use nsf_research_open_siem.Mitre.{
  login_failed, reverse_shell_tokens, persistence_tokens, scanner_tokens,
}
use nsf_research_open_siem.Features.{
  session_key, sessions, aggregate_sessions, login_success, downloads, command_has, shell_tokens,
  is_alert, is_source,
}
use nsf_research_open_siem.Features.Counts.{
  count, total_events-aggregate_sessions, counters-aggregate_sessions,
}
use nsf_research_open_siem.Features.Invariant.{IsConsistent, sessions-IsConsistent}
use nsf_research_open_siem.Features.Window.{Spans, sessions_span}
use nsf_research_open_siem.Tests.Sample.{
  sample_py, sample_event, command_event, other_event, sample_log,
}

abbrev totals : (SessionFeatures ℕ → ℕ) → ℕ
totals m = sum (map m (aggregate_sessions sample_py sample_log))

total_events_example : totals (λ f. f.total_events) ≡ length sample_log
total_events_example = total_events-aggregate_sessions sample_py sample_log

counters_example :
    (totals (λ f. f.login_failures) ≡ count (login_failed sample_py) sample_log)
    × (totals (λ f. f.login_successes) ≡ count (login_success sample_py) sample_log)
    × (totals (λ f. f.commands) ≡ count (λ e. truthy e.command) sample_log)
    × (totals (λ f. f.download_commands) ≡ count (downloads sample_py) sample_log)
    × (totals (λ f. f.reverse_shells)
        ≡ count (command_has sample_py reverse_shell_tokens) sample_log)
    × (totals (λ f. f.persistence_attempts)
        ≡ count (command_has sample_py persistence_tokens) sample_log)
    × (totals (λ f. f.scanner_commands) ≡ count (command_has sample_py scanner_tokens) sample_log)
    × (totals (λ f. f.suspicious_shells) ≡ count (command_has sample_py shell_tokens) sample_log)
    × (totals (λ f. f.suricata_alerts) ≡ count is_alert sample_log)
    × (totals (λ f. f.dionaea_connections) ≡ count (is_source "dionaea") sample_log)
    × (totals (λ f. f.network_connections) ≡ count (is_source "zeek") sample_log)
counters_example = counters-aggregate_sessions sample_py sample_log

sessions-IsConsistent_example :
    Entries (λ k f. (f.key ≡ k) × IsConsistent sample_py f) (sessions sample_py sample_log)
sessions-IsConsistent_example = sessions-IsConsistent sample_py sample_log

span_example :
    (f : SessionFeatures ℕ) × (lookup
        (session_key command_event)
        (sessions sample_py ((sample_event ∷ []) ++ command_event ∷ other_event ∷ []))
      ≡ some f)
    × Spans f.first_seen f.last_seen command_event.timestamp
span_example = sessions_span sample_py (sample_event ∷ []) command_event (other_event ∷ [])
