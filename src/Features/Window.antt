-- ===== src/Features/Window.antt =====
-- src/honeypot_ai/features.py, `_update_time_window`: the times that a session spans.
use nsf_research_open_siem.Base.{
  ℤ, ◌≤ℤ◌, ◌≡◌, refl, List, [], ◌∷◌, ◌++◌, some, none, Option, arith, string_eq,
}
use nsf_research_open_siem.Base.Dict.{lookup}
use nsf_research_open_siem.Base.Group.{group-kept}
use nsf_research_open_siem.Models.{Event, SessionFeatures}
use nsf_research_open_siem.Runtime.{Runtime}
use nsf_research_open_siem.Features.Defs.{
  session_key, first_seen, last_seen, new_session, apply_event, sessions,
}
use nsf_research_open_siem.Features.Invariant.{key_of}

-- The window of times holds `t`.
abbrev pub Spans : Option ℤ → Option ℤ → Option ℤ → Type 0
Spans (some a) (some b) (some t) = (a ≤ℤ t) × (t ≤ℤ b)
Spans _ _ none = Unit
Spans _ _ (some t) = ⊥

Spans-new : (a b t : Option ℤ) → Spans (first_seen t a) (last_seen t b) t
unfolding first_seen last_seen
Spans-new none none none = tt
Spans-new none (some b) none = tt
Spans-new (some a) none none = tt
Spans-new (some a) (some b) none = tt
Spans-new none none (some t) = omega arith
Spans-new none (some b) (some t) = ground arith
Spans-new (some a) none (some t) = ground arith
Spans-new (some a) (some b) (some t) = ground arith

Spans-kept : (a b t u : Option ℤ) → Spans a b t → Spans (first_seen u a) (last_seen u b) t
unfolding first_seen last_seen
Spans-kept a b t none h = h
Spans-kept (some a) (some b) (some t) (some u) h = ground arith
Spans-kept (some a) (some b) none (some u) h = ground arith
Spans-kept none (some b) none (some u) h = ground arith
Spans-kept (some a) none none (some u) h = ground arith
Spans-kept none none none (some u) h = ground arith
Spans-kept none (some b) (some t) (some u) h = elim h [ ]
Spans-kept (some a) none (some t) (some u) h = elim h [ ]
Spans-kept none none (some t) (some u) h = elim h [ ]

module _ (py : Runtime) where
  open py use {Float}

  -- Every event of a log has a session under its key, whose first and last times enclose the
  -- event's time, if the event has one.
  pub sessions_span :
      (es : List Event) (e : Event) (fs : List Event)
      → (f : SessionFeatures Float) × (lookup (session_key e) (sessions py (es ++ e ∷ fs)) ≡ some f)
        × Spans f.first_seen f.last_seen e.timestamp
  unfolding sessions apply_event
  sessions_span es e fs =
      group-kept key_of (new_session py) (apply_event py)
        (λ f. Spans f.first_seen f.last_seen e.timestamp)
        (λ x f h. Spans-kept f.first_seen f.last_seen e.timestamp x.timestamp h) es e fs
        (session_key e) [] refl (λ f. Spans-new f.first_seen f.last_seen e.timestamp)
