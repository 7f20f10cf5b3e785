-- ===== src/Endpoint/Invariant.antt =====
-- src/honeypot_ai/endpoint.py: what holds of every state that `build_endpoint_windows` keeps.
use nsf_research_open_siem.Base.{
  ℤ, ◌≡◌, refl, String, Bool, true, false, not, ◌&&◌, List, [], Option, none, some, ◌==◌, string_eq,
  arith, if◌then◌else◌, Bool-cases, inl, inr, ◌≢◌,
}
use mathlib.Core.Option.{some-injective}
use mathlib.Core.Path.{subst}
use nsf_research_open_siem.Base.Equality.{contains}
use nsf_research_open_siem.Base.Dict.{values, Distinct, add-Distinct, update-Distinct, contains-add}
use nsf_research_open_siem.Base.Group.{Entries, group-Entries}
use nsf_research_open_siem.Base.Text.{truthy, or_text}
use nsf_research_open_siem.Models.{Event}
use nsf_research_open_siem.Runtime.{Runtime}
use nsf_research_open_siem.Features.{add_text, is_source}
use nsf_research_open_siem.Endpoint.Select.{raw_string}
use nsf_research_open_siem.Endpoint.Time.{end_of}
use nsf_research_open_siem.Endpoint.State.{WindowState, new_state, add_peer, add_port, int_eq}
use nsf_research_open_siem.Endpoint.Apply.{apply_event, add_protocol}
use nsf_research_open_siem.Endpoint.Windows.{WindowKey, window_key_eq, Placed, fresh, event_states}

eq-false : (a b : String) → a ≢ b → (a == b) ≡ false
eq-false a b h = ground arith

add_peer-keeps :
    (v : Option String) (me : String) (s : List String)
    → Distinct s × (contains s me ≡ false)
    → Distinct (add_peer v me s) × (contains (add_peer v me s) me ≡ false)
unfolding add_peer
add_peer-keeps v me s (d, h) = elim (Bool-cases (truthy v && not (or_text v "" == me))) [
  | inl t ↦ rw t (add-Distinct (or_text v "") s d, ground (arith, contains-add (or_text v "") s me))
  | inr f ↦ rw f (d, h)
]

add_port-Distinct : (p : Option ℤ) (s : List ℤ) → Distinct s → Distinct (add_port p s)
unfolding add_port
add_port-Distinct none s h = h
add_port-Distinct (some p) s h = add-Distinct p s h

add_text-Distinct : (v : Option String) (s : List String) → Distinct s → Distinct (add_text v s)
unfolding add_text
add_text-Distinct v s h = elim (Bool-cases (truthy v)) [
  | inl t ↦ rw t (add-Distinct (or_text v "") s h)
  | inr f ↦ rw f h
]

add_binary-Distinct :
    (b : Bool) (v : Option String) (s : List String)
    → Distinct s
    → Distinct (if b then add_text v s else s)
add_binary-Distinct true v s h = add_text-Distinct v s h
add_binary-Distinct false v s h = h

add_protocol-Distinct :
    (py : Runtime) (v : Option String) (s : List String)
    → Distinct s
    → Distinct (add_protocol py v s)
unfolding add_protocol
add_protocol-Distinct py v s h = elim (Bool-cases (truthy v)) [
  | inl t ↦ rw t (add-Distinct (py.lower (or_text v "")) s h)
  | inr f ↦ rw f h
]

module _ (py : Runtime) where
  open py use {Float}

  -- A state has the endpoint, role and times of its key, its sets repeat nothing, and its endpoint
  -- is not among its peers.
  pub record IsWindow (w : ℤ) (k : WindowKey) (s : WindowState Float) : Type 0 where
    pub endpoint : s.endpoint ≡ k.endpoint
    pub role : s.role ≡ k.role
    pub start : s.window_start ≡ k.start
    pub end : s.window_end ≡ end_of k.start w
    pub peers : Distinct s.peers × (contains s.peers s.endpoint ≡ false)
    pub ports : Distinct s.dest_ports
    pub hashes : Distinct s.hashes
    pub event_types : Distinct s.event_types
    pub protocols : Distinct s.protocols
    pub urls : Distinct s.urls
    pub domains : Distinct s.domains
    pub binaries : Distinct s.binaries

  apply_event-IsWindow :
      (w : ℤ) (k : WindowKey) (e : Event) (s : WindowState Float)
      → IsWindow w k s
      → IsWindow w k (apply_event py e s)
  unfolding apply_event
  apply_event-IsWindow w k e s h = record {
    endpoint = h.endpoint;
    role = h.role;
    start = h.start;
    end = h.end;
    peers =
        add_peer-keeps e.dest_ip s.endpoint _ (add_peer-keeps e.src_ip s.endpoint s.peers h.peers);
    ports = add_port-Distinct e.dest_port s.dest_ports h.ports;
    hashes = update-Distinct (values e.hashes) s.hashes h.hashes;
    event_types = add-Distinct e.event_type s.event_types h.event_types;
    protocols = add_protocol-Distinct py e.protocol s.protocols h.protocols;
    urls = add_text-Distinct e.url s.urls h.urls;
    domains = add_text-Distinct e.domain s.domains h.domains;
    binaries =
        add_binary-Distinct (is_source "ebpf" e) (raw_string py e "binary") s.binaries h.binaries;
  }

  fresh-IsWindow : (w : ℤ) (p : Placed Event) → IsWindow w p.0 (fresh py w p)
  unfolding fresh new_state
  fresh-IsWindow w (k, e) = record {
    endpoint = refl;
    role = refl;
    start = refl;
    end = refl;
    peers = (tt, refl);
    ports = tt;
    hashes = tt;
    event_types = tt;
    protocols = tt;
    urls = tt;
    domains = tt;
    binaries = tt;
  }

  -- Every state that placed events make has the endpoint, role, start and end of its key, eight
  -- sets that repeat nothing, and peers among which the endpoint is not.
  pub event_states-IsWindow :
      (w : ℤ) (ps : List (Placed Event)) → Entries (IsWindow w) (event_states py w ps)
  unfolding event_states
  event_states-IsWindow w ps =
      group-Entries (λ p. some p.0) (fresh py w) (λ p. apply_event py p.1) (IsWindow w)
        (λ p k h.
          apply_event-IsWindow w k p.1 (fresh py w p) (
            subst (λ j. IsWindow w j (fresh py w p)) (some-injective p.0 k h) (fresh-IsWindow w p)))
        (λ p k s _ h. apply_event-IsWindow w k p.1 s h) ps [] tt
