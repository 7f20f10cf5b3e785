-- ===== src/Features/Invariant.antt =====
-- src/honeypot_ai/features.py: which sessions there are, and what holds of each.
use nsf_research_open_siem.Base.{
  ℕ, ◌+◌, ◌≤◌, ◌≡◌, refl, ap, ◌∙◌, String, Bool, List, [], ◌∷◌, some, Option, map, arith, ◌&&◌,
  differ, string_eq, Bool-cases, inl, inr,
}
use nsf_research_open_siem.Base.Dict.{
  Dict, length, length-append, keys, values, add, update, Distinct, add-Distinct, update-Distinct,
}
use nsf_research_open_siem.Base.Group.{seen, keys-group, Entries, group-Entries}
use nsf_research_open_siem.Base.Text.{truthy, or_text}
use nsf_research_open_siem.Models.{Event, SessionFeatures}
use nsf_research_open_siem.Runtime.{Runtime}
use nsf_research_open_siem.Mitre.{login_failed}
use mathlib.Core.Option.{some-injective}
use nsf_research_open_siem.Features.Defs.{
  session_key, bump, is_alert, is_source, add_text, downloads, command_has, login_success,
  new_session, apply_event, sessions, aggregate_sessions,
}

abbrev pub key_of : Event → Option String
key_of e = some (session_key e)

bump_le : (b : Bool) (n m : ℕ) → n ≤ m → bump b n ≤ m + 1
bump_le b n m h = ground arith

bump_and_le : (a b : Bool) (n m : ℕ) → n ≤ m → bump (a && b) n ≤ bump a m
bump_and_le a b n m h = ground arith

-- One event comes from one sensor.
bump_sources :
    (e : Event) (a b c n : ℕ)
    → a + b + c ≤ n
    → bump (is_alert e) a + bump (is_source "dionaea" e) b + bump (is_source "zeek" e) c ≤ n + 1
unfolding is_alert is_source
bump_sources e a b c n h = ground (
  arith,
  differ "suricata" "dionaea" refl,
  differ "suricata" "zeek" refl,
  differ "dionaea" "zeek" refl,
)

add_text-Distinct : (v : Option String) (s : List String) → Distinct s → Distinct (add_text v s)
unfolding add_text
add_text-Distinct v s d = elim (Bool-cases (truthy v)) [
  | inl t ↦ rw t (add-Distinct (or_text v "") s d)
  | inr f ↦ rw f d
]

length-add : (x : String) (s : List String) → length (add x s) ≤ length s + 1
unfolding add
length-add x s = ground (arith, length-append s (x ∷ []))

length-add_text :
    (v : Option String) (s : List String) (n : ℕ) → length s ≤ n → length (add_text v s) ≤ n + 1
unfolding add_text
length-add_text v s n h = elim (Bool-cases (truthy v)) [
  | inl t ↦ rw t (omega (arith, length-add (or_text v "") s))
  | inr f ↦ rw f (omega arith)
]

module _ (py : Runtime) where
  open py use {Float}

  -- A list of sessions, each with its key in front of its features.
  abbrev IsKeyed : String → SessionFeatures Float → Type 0
  IsKeyed k f = f.key ≡ k

  session-IsKeyed : (es : List Event) → Entries IsKeyed (sessions py es)
  unfolding sessions
  session-IsKeyed es =
      group-Entries key_of (new_session py) (apply_event py) IsKeyed
        (λ e k h. unfold new_session apply_event in (some-injective (session_key e) k h))
        (λ e k f _ h. unfold apply_event in h) es [] tt

  values-IsKeyed :
      (d : Dict String (SessionFeatures Float))
      → Entries IsKeyed d
      → map (λ f. f.key) (values d) ≡ keys d
  unfolding values keys
  values-IsKeyed [] h = refl
  values-IsKeyed ((k, f) ∷ d) (h, hs) = cc (h, values-IsKeyed d hs)

  seen-session_key : (es : List Event) → seen key_of es ≡ map session_key es
  unfolding seen
  seen-session_key [] = refl
  seen-session_key (e ∷ es) = ap (◌∷◌ (session_key e)) (seen-session_key es)

  keys_eq :
      (es : List Event)
      → map (λ f. f.key) (values (sessions py es)) ≡ update (map session_key es) []
  unfolding sessions keys
  keys_eq es =
      values-IsKeyed (sessions py es) (session-IsKeyed es)
      ∙ keys-group key_of (new_session py) (apply_event py) es []
      ∙ ap (λ ks. update ks []) (seen-session_key es)

  -- There is one session for each session key of the log, in the order of the keys' first events.
  pub keys-aggregate_sessions :
      (es : List Event)
      → (map (λ f. f.key) (aggregate_sessions py es) ≡ update (map session_key es) [])
        × Distinct (map (λ f. f.key) (aggregate_sessions py es))
  unfolding aggregate_sessions
  keys-aggregate_sessions es =
      let e = keys_eq es in (e, rw e (update-Distinct (map session_key es) [] tt))

  pub record IsConsistent (f : SessionFeatures Float) : Type 0 where
    pub failures : f.login_failures ≤ f.total_events
    pub successes : f.login_successes ≤ f.total_events
    pub commands : f.commands ≤ f.total_events
    pub downloads : f.download_commands ≤ f.commands
    pub shells : f.reverse_shells ≤ f.commands
    pub persistence : f.persistence_attempts ≤ f.commands
    pub scans : f.scanner_commands ≤ f.commands
    pub suspicious : f.suspicious_shells ≤ f.commands
    pub sensors : f.suricata_alerts + f.dionaea_connections + f.network_connections ≤ f.total_events
    pub usernames : Distinct f.usernames
    pub passwords : Distinct f.passwords
    pub urls : Distinct f.urls
    pub hashes : Distinct f.hashes
    pub event_types : Distinct f.event_types
    pub some_passwords : length f.passwords ≤ f.total_events

  apply_event-IsConsistent :
      (e : Event) (f : SessionFeatures Float) → IsConsistent f → IsConsistent (apply_event py e f)
  unfolding apply_event
  apply_event-IsConsistent e f h = record {
    failures = bump_le (login_failed py e) _ _ h.failures;
    successes = bump_le (login_success py e) _ _ h.successes;
    commands = bump_le (truthy e.command) _ _ h.commands;
    downloads = unfold downloads in (bump_and_le (truthy e.command) _ _ _ h.downloads);
    shells = unfold command_has in (bump_and_le (truthy e.command) _ _ _ h.shells);
    persistence = unfold command_has in (bump_and_le (truthy e.command) _ _ _ h.persistence);
    scans = unfold command_has in (bump_and_le (truthy e.command) _ _ _ h.scans);
    suspicious = unfold command_has in (bump_and_le (truthy e.command) _ _ _ h.suspicious);
    sensors = bump_sources e _ _ _ _ h.sensors;
    usernames = add_text-Distinct e.username f.usernames h.usernames;
    passwords = add_text-Distinct e.password f.passwords h.passwords;
    urls = add_text-Distinct e.url f.urls h.urls;
    hashes = update-Distinct (values e.hashes) f.hashes h.hashes;
    event_types = add-Distinct e.event_type f.event_types h.event_types;
    some_passwords = length-add_text e.password f.passwords f.total_events h.some_passwords;
  }

  new-IsConsistent : (e : Event) → IsConsistent (apply_event py e (new_session py e))
  new-IsConsistent e = apply_event-IsConsistent e (new_session py e) (
      unfold new_session in
      (record {
        failures = omega arith;
        successes = omega arith;
        commands = omega arith;
        downloads = omega arith;
        shells = omega arith;
        persistence = omega arith;
        scans = omega arith;
        suspicious = omega arith;
        sensors = omega arith;
        usernames = tt;
        passwords = tt;
        urls = tt;
        hashes = tt;
        event_types = tt;
        some_passwords = omega arith;
      }))

  -- Every session stands under its key, and is consistent: no counter exceeds the number of its
  -- events, none about commands exceeds that of its commands, and its sets repeat nothing.
  pub sessions-IsConsistent :
      (es : List Event) → Entries (λ k f. (f.key ≡ k) × IsConsistent f) (sessions py es)
  unfolding sessions
  sessions-IsConsistent es =
      group-Entries key_of (new_session py) (apply_event py) (λ k f. (f.key ≡ k) × IsConsistent f)
        (λ e k h. (
          unfold new_session apply_event in (some-injective (session_key e) k h),
          new-IsConsistent e,
        ))
        (λ e k f _ h. (unfold apply_event in h.0, apply_event-IsConsistent e f h.1)) es [] tt
