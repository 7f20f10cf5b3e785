-- ===== src/Correlation/Actors.antt =====
-- src/honeypot_ai/correlation.py: profiles of the addresses that events and findings are about.
use mathlib.Core.Option.{get_or}
use nsf_research_open_siem.Base.{
  ◌+◌, ℤ, pos, ltb_ℤ, String, ◌<>◌, Bool, true, false, not, ◌&&◌, ◌||◌, List, [], ◌∷◌, Option, none,
  some, ◌==◌, string_eq, if◌then◌else◌, ltb,
}
use nsf_research_open_siem.Base.Dict.{Dict, length, values, add, update, upsert, lookup}
use nsf_research_open_siem.Base.Group.{group}
use nsf_research_open_siem.Base.Sort.{sorted}
use nsf_research_open_siem.Base.Text.{truthy, or_text, starts_with}
use nsf_research_open_siem.Models.{Event, RiskFinding, ActorProfile}
use nsf_research_open_siem.Runtime.{Runtime, Addresses}
use nsf_research_open_siem.Mitre.{map_event}
use nsf_research_open_siem.Features.{add_text, bump, first_seen, last_seen}
use nsf_research_open_siem.Detectors.Findings.{
  events_by_session, is_empty, float_lt, outlier_reason,
}

abbrev documentation_nets : List String
documentation_nets = "192.0.2.0/24" ∷ "198.51.100.0/24" ∷ "203.0.113.0/24" ∷ []

module _ (ip : Addresses) where
  open ip use {
    Address, Network, ip_address, ip_network, in_network, is_private, is_loopback, is_link_local,
    is_multicast, is_reserved, is_global,
  }

  abbrev in_net : Address → Option Network → Bool
  in_net a none = false
  in_net a (some n) = in_network a n

  -- `any(ip in network for network in DOCUMENTATION_NETS)`
  unfoldable pub in_documentation : Address → List String → Bool
  in_documentation a [] = false
  in_documentation a (n ∷ ns) = in_net a (ip_network n) || in_documentation a ns

  abbrev scope_of : Option Address → String
  scope_of none = "invalid"
  scope_of (some a) =
      if in_documentation a documentation_nets
      then "documentation"
      else if is_loopback a
      then "loopback"
      else if is_private a
      then "private"
      else if is_link_local a
      then "link-local"
      else if is_multicast a
      then "multicast"
      else if is_reserved a
      then "reserved"
      else if is_global a
      then "global"
      else "special"

  unfoldable pub ip_scope : String → String
  unfolding in_documentation
  ip_scope value = scope_of (ip_address value)

-- One call of `_apply_event`: the address, its role and the event.
pub record Visit : Type 0 where
  pub ip : String
  pub is_source : Bool
  pub event : Event

abbrev pub goes_elsewhere : Event → Bool
goes_elsewhere e = truthy e.dest_ip && not (or_text e.dest_ip "" == or_text e.src_ip "")

abbrev pub visit_if : Bool → Visit → List Visit → List Visit
visit_if test v vs = if test then v ∷ vs else vs

-- The calls that the loop over the events makes, in their order.
unfoldable pub visits : List Event → List Visit
unfolding string_eq
visits [] = []
visits (e ∷ es) =
    visit_if (truthy e.src_ip) (record { ip = or_text e.src_ip ""; is_source = true; event = e })
      (visit_if (goes_elsewhere e)
        (record { ip = or_text e.dest_ip ""; is_source = false; event = e }) (visits es))

module _ (py : Runtime) (addresses : Addresses) where
  open py use {Float, float_add, of_int}

  -- `ActorProfile(ip=ip, ip_scope=ip_scope(ip))`
  unfoldable pub new_actor : String → ActorProfile Float
  new_actor ip = record {
    ip = ip;
    ip_scope = ip_scope addresses ip;
    first_seen = none;
    last_seen = none;
    total_events = 0;
    source_events = 0;
    destination_events = 0;
    sources = [];
    sessions = [];
    event_types = [];
    urls = [];
    hashes = [];
    usernames = [];
    techniques = [];
    finding_score = of_int (pos 0);
    finding_severities = [];
  }

  abbrev session_name : Event → Option String
  session_name e = if truthy e.session then some (e.source <> ":" <> or_text e.session "") else none

  unfoldable pub apply_visit : Visit → ActorProfile Float → ActorProfile Float
  unfolding string_eq
  apply_visit v a =
      let e = v.event in
      record a {
        total_events = a.total_events + 1;
        sources = add e.source a.sources;
        event_types = add e.event_type a.event_types;
        techniques = update (map_event py e) a.techniques;
        first_seen = first_seen e.timestamp a.first_seen;
        last_seen = last_seen e.timestamp a.last_seen;
        source_events = bump v.is_source a.source_events;
        destination_events = bump (not v.is_source) a.destination_events;
        sessions = add_text (session_name e) a.sessions;
        urls = add_text e.url a.urls;
        usernames = add_text e.username a.usernames;
        hashes = update (values e.hashes) a.hashes;
      }

  unfoldable pub observed : List Event → Dict String (ActorProfile Float)
  observed es = group (λ v. some v.ip) (λ v. new_actor v.ip) apply_visit (visits es) []

  abbrev other_reason : List String → Bool
  other_reason [] = false
  other_reason (r ∷ rs) = not (r == outlier_reason py) || other_reason rs

  unfoldable pub has_behavioral_evidence : RiskFinding Float → Bool
  unfolding string_eq
  has_behavioral_evidence f = not (is_empty f.mitre_techniques) || other_reason f.reasons

  -- The destinations of a session that are not private.
  unfoldable pub outside_destinations : List Event → List String → List String
  unfolding string_eq
  outside_destinations [] s = s
  outside_destinations (e ∷ es) s =
      let value = or_text e.dest_ip "" in
      outside_destinations es
        (if truthy e.dest_ip && not (ip_scope addresses value == "private") then add value s else s)

  abbrev or_source : List String → Option String → List String
  or_source [] src = add_text src []
  or_source (i ∷ is) src = i ∷ is

  -- A set, as the list of its members; their order decides nothing but ties of the final order.
  unfoldable pub finding_actor_ips : RiskFinding Float → List Event → List String
  unfolding starts_with outside_destinations string_eq add_text
  finding_actor_ips f es =
      if starts_with f.session_key "zeek:"
      then or_source (outside_destinations es []) f.src_ip
      else add_text f.src_ip []

  unfoldable pub apply_finding : RiskFinding Float → ActorProfile Float → ActorProfile Float
  unfolding string_eq
  apply_finding f a =
      let counts = has_behavioral_evidence f in
      record a {
        finding_score = if counts then float_add a.finding_score f.score else a.finding_score;
        finding_severities =
            if counts then add f.severity a.finding_severities else a.finding_severities;
        techniques = update f.mitre_techniques a.techniques;
      }

  unfoldable pub blame :
      RiskFinding Float
      → List String
      → Dict String (ActorProfile Float)
      → Dict String (ActorProfile Float)
  blame f [] d = d
  blame f (ip ∷ ips) d = blame f ips (upsert ip (new_actor ip) (apply_finding f) d)

  -- The loop over the findings.
  unfoldable pub blame_all :
      Dict String (List Event)
      → List (RiskFinding Float)
      → Dict String (ActorProfile Float)
      → Dict String (ActorProfile Float)
  unfolding blame string_eq
  blame_all grouped [] d = d
  blame_all grouped (f ∷ fs) d =
      blame_all grouped fs
        (blame f (finding_actor_ips f (get_or (lookup f.session_key grouped) [])) d)

  -- `actor.last_seen or UTC_MIN`: a missing time is before all others.
  abbrev seen_before : Option ℤ → Option ℤ → Bool
  seen_before none (some t) = true
  seen_before (some t) (some u) = ltb_ℤ t u
  seen_before t none = false

  -- The key of `a` is not below that of `b`.
  unfoldable pub not_below : ActorProfile Float → ActorProfile Float → Bool
  not_below a b =
      if float_lt py b.finding_score a.finding_score
      then true
      else if float_lt py a.finding_score b.finding_score
      then false
      else if ltb (length b.sources) (length a.sources)
      then true
      else if ltb (length a.sources) (length b.sources)
      then false
      else if ltb b.total_events a.total_events
      then true
      else if ltb a.total_events b.total_events
      then false
      else not (seen_before a.last_seen b.last_seen)

  unfoldable pub correlate_actors :
      List Event → List (RiskFinding Float) → List (ActorProfile Float)
  unfolding observed blame_all
  correlate_actors es fs =
      sorted not_below (values (blame_all (events_by_session es) fs (observed es)))
