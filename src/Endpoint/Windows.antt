-- ===== src/Endpoint/Windows.antt =====
-- src/honeypot_ai/endpoint.py: the windows of a log or of a capture, and their weak labels.
use Prim.Native.String.{compare}
use Prim.Native.Nat.{Ordering}
use mathlib.Core.Option.{get_or}
use nsf_research_open_siem.Base.{
  ℕ, ℤ, pos, ltb_ℤ, String, Bool, true, false, not, ◌&&◌, List, [], ◌∷◌, ◌++◌, Option, none, some,
  string_eq, Eq, if◌then◌else◌, map,
}
use nsf_research_open_siem.Base.Dict.{Dict, length, values, lookup, insert}
use nsf_research_open_siem.Base.Group.{group}
use nsf_research_open_siem.Base.Result.{Result, ok, ◌>>=◌}
use nsf_research_open_siem.Base.Sort.{sorted}
use nsf_research_open_siem.Models.{Event, PacketObservation}
use nsf_research_open_siem.Runtime.{Runtime, Addresses}
use nsf_research_open_siem.Endpoint.Select.{
  WindowError, Selected, parse_networks, select_endpoint, select_event_endpoint,
}
use nsf_research_open_siem.Endpoint.Time.{window_start, window_end, end_of}
use nsf_research_open_siem.Endpoint.State.{WindowState, feature_names, int_discrete, new_state}
use nsf_research_open_siem.Endpoint.Apply.{apply_event, apply_packet, directional_bytes}

pub record EndpointWindow (Float : Type 0) : Type 0 where
  pub id : String
  pub endpoint : String
  pub role : String
  pub window_start : ℤ
  pub window_end : ℤ
  pub features : Dict String Float
  pub label : String
  pub label_reasons : List String
  pub source_event_count : ℕ

-- `(endpoint, role, start)`
pub record WindowKey : Type 0 where
  pub endpoint : String
  pub role : String
  pub start : ℤ

WindowKey-discrete : Discrete WindowKey
unfolding int_discrete
WindowKey-discrete = hlevel (string_eq.dec, int_discrete)

instance unfoldable pub window_key_eq : Eq WindowKey
unfolding WindowKey-discrete
window_key_eq = record { dec = WindowKey-discrete }

-- An event or packet with the window that it belongs to.
abbrev pub Placed : Type 0 → Type 0
Placed A = WindowKey × A

-- `time` is the time of an element, and `numbers` what its numbers raise when it is counted.
module _ {A : Type 0} (py : Runtime) (select : A → Selected) (time : A → Option ℤ)
    (numbers : A → String → Result WindowError Unit) (window_seconds : ℤ) where
  abbrev pub place : A → Selected → Result WindowError (Option (Placed A))
  place x none = ok none
  place x (some (endpoint, role)) = do
    start ← window_start py (time x) window_seconds
    end ← window_end start window_seconds
    counted ← numbers x endpoint
    ok (some (record { endpoint = endpoint; role = role; start = start }, x))

  abbrev pub cons_placed : Option (Placed A) → List (Placed A) → List (Placed A)
  cons_placed none ps = ps
  cons_placed (some p) ps = p ∷ ps

  -- What the loop does with each element, but for the states, which an error drops: it is skipped
  -- (`continue`), or `_window_start`, `_window_end` or `_apply_event` raises, or it has a key.
  unfoldable pub place_all : List A → Result WindowError (List (Placed A))
  place_all [] = ok []
  place_all (x ∷ xs) = do p ← place x (select x); ps ← place_all xs; ok (cons_placed p ps)

abbrev text_before : String → String → Bool → Bool
text_before s t tie = elim (compare s t) [
  | Ordering.lt ↦ true
  | Ordering.eq ↦ tie
  | Ordering.gt ↦ false
]

module _ {Float : Type 0} where
  -- `(window_start, endpoint, role)` of one window is not above that of the other.
  unfoldable pub not_after : EndpointWindow Float → EndpointWindow Float → Bool
  not_after a b =
      if ltb_ℤ a.window_start b.window_start
      then true
      else if ltb_ℤ b.window_start a.window_start
      then false
      else text_before a.endpoint b.endpoint (text_before a.role b.role true)

abbrev pub reason_if : Bool → String → List String → List String
reason_if true r rs = rs ++ r ∷ []
reason_if false r rs = rs

abbrev pub label_for : List String → String × List String
label_for [] = ("benign", "no weak malicious evidence" ∷ [])
label_for (r ∷ rs) = ("malicious", r ∷ rs)

module _ (py : Runtime) where
  open py use {Float, float_le, of_int}

  abbrev count_of {ℓ} : {A : Type ℓ} → List A → Float
  count_of s = of_int (pos (length s))

  -- The sizes of the sets overwrite their features.
  unfoldable pub set_sizes : WindowState Float → Dict String Float
  set_sizes s = insert "unique_binaries" (count_of s.binaries) (
      insert "hash_count" (count_of s.hashes) (
        insert "domain_count" (count_of s.domains) (
          insert "url_count" (count_of s.urls) (
            insert "unique_event_types" (count_of s.event_types) (
              insert "unique_protocols" (count_of s.protocols) (
                insert "unique_dest_ports" (count_of s.dest_ports)
                  (insert "unique_peers" (count_of s.peers) s.features)))))))

  unfoldable pub feature_vector : List String → Dict String Float → Dict String Float
  feature_vector [] d = []
  feature_vector (n ∷ ns) d = (n, get_or (lookup n d) (of_int (pos 0))) ∷ feature_vector ns d

  abbrev positive : Float → Bool
  positive x = not (float_le x (of_int (pos 0)))

  -- `features.get(name, 0) > 0`
  unfoldable pub has_feature : Dict String Float → String → Bool
  unfolding lookup
  has_feature d name = positive (get_or (lookup name d) (of_int (pos 0)))

  unfoldable pub weak_reasons : Dict String Float → List String
  weak_reasons d =
      let r1 = reason_if (has_feature d "suricata_alerts") "Suricata alert observed" [] in
      let r2 = reason_if (has_feature d "reverse_shells") "reverse-shell command pattern" r1 in
      let r3 = reason_if (has_feature d "persistence_attempts") "persistence command pattern" r2 in
      let r4 = reason_if (has_feature d "download_commands") "tool or payload download" r3 in
      let r5 = reason_if (has_feature d "hash_count") "file hash indicator" r4 in
      let r6 = reason_if (has_feature d "scanner_commands") "scanner command pattern" r5 in
      let r7 = reason_if (has_feature d "privilege_changes") "eBPF privilege change" r6 in
      let r8 = reason_if (has_feature d "sensitive_file_writes") "eBPF sensitive file write" r7 in
      let r9 = reason_if (has_feature d "download_tool_execs") "eBPF download tool execution" r8 in
      reason_if (has_feature d "shell_execs" && has_feature d "outbound_connects")
        "eBPF shell with outbound connection" r9

  unfoldable pub weak_label : Dict String Float → String × List String
  weak_label d = label_for (weak_reasons d)

  unfoldable pub assign_weak_label : EndpointWindow Float → EndpointWindow Float
  unfolding weak_label
  assign_weak_label w = record w {
    label = (weak_label w.features).0;
    label_reasons = (weak_label w.features).1;
  }

  -- `_WindowState(endpoint=endpoint, …)`
  unfoldable pub fresh {ℓ} : {A : Type ℓ} → ℤ → WindowKey × A → WindowState Float
  fresh window_seconds (k, _) =
      new_state py k.endpoint k.role k.start (end_of k.start window_seconds)

  unfoldable pub event_states : ℤ → List (Placed Event) → Dict WindowKey (WindowState Float)
  event_states w ps = group (λ p. some p.0) (fresh w) (λ p. apply_event py p.1) ps []

  unfoldable pub packet_states :
      ℤ → List (Placed PacketObservation) → Dict WindowKey (WindowState Float)
  packet_states w ps = group (λ p. some p.0) (fresh w) (λ p. apply_packet py p.1) ps []

  -- `hashlib.sha1` of the key, which the model takes as a function of the key.
  module _ (window_id : String → String → ℤ → String) where
    unfoldable pub finalize_state : WindowState Float → EndpointWindow Float
    finalize_state s = record {
      id = window_id s.endpoint s.role s.window_start;
      endpoint = s.endpoint;
      role = s.role;
      window_start = s.window_start;
      window_end = s.window_end;
      features = feature_vector feature_names (set_sizes s);
      label = "unknown";
      label_reasons = [];
      source_event_count = s.source_event_count;
    }

    unfoldable pub finalize : List (WindowState Float) → List (EndpointWindow Float)
    finalize ss = sorted not_after (map finalize_state ss)

module _ (py : Runtime) (ip : Addresses) where
  open py use {Float}
  open ip use {Network}

  -- What `_directional_bytes` raises.
  abbrev pub byte_numbers : Event → String → Result WindowError Unit
  byte_numbers e endpoint = do bytes ← directional_bytes py e endpoint; ok tt

  -- `hashlib.sha1` of the key, which the model takes as a function of the key.
  module _ (window_id : String → String → ℤ → String) where
    unfoldable pub build_endpoint_windows :
        List Event → ℤ → List String → Result WindowError (List (EndpointWindow Float))
    build_endpoint_windows es w cidrs = do
      ns ← parse_networks ip cidrs
      ps ← place_all py (λ e. select_event_endpoint ip py e ns) (λ e. e.timestamp) byte_numbers w es
      ok (map (assign_weak_label py) (finalize py window_id (values (event_states py w ps))))

    unfoldable pub build_endpoint_windows_from_packets :
        List PacketObservation → ℤ → List String → Result WindowError (List (EndpointWindow Float))
    build_endpoint_windows_from_packets packets w cidrs = do
      ns ← parse_networks ip cidrs
      ps ←
          place_all py (λ p. select_endpoint ip (some p.src_ip) (some p.dest_ip) ns)
            (λ p. some p.timestamp) (λ p endpoint. ok tt) w packets
      ok (finalize py window_id (values (packet_states py w ps)))
