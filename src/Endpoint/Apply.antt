-- ===== src/Endpoint/Apply.antt =====
-- src/honeypot_ai/endpoint.py: what one event or packet changes in a window's state.
use nsf_research_open_siem.Base.{
  ◌+◌, ℤ, pos, ◌+ℤ◌, String, Bool, not, ◌&&◌, List, [], ◌∷◌, Option, some, ◌==◌, string_eq,
  option_eq, if◌then◌else◌,
}
use nsf_research_open_siem.Base.Result.{Result, ok, raise, ◌>>=◌}
use nsf_research_open_siem.Base.Dict.{Dict, values, add, update}
use nsf_research_open_siem.Base.Text.{is_in, any_in, truthy, or_text}
use nsf_research_open_siem.Models.{Event, PacketObservation}
use nsf_research_open_siem.Runtime.{Runtime}
use nsf_research_open_siem.Mitre.{
  login_failed, reverse_shell_tokens, persistence_tokens, scanner_tokens,
}
use nsf_research_open_siem.Features.{
  add_text, login_success, downloads, command_has, command_of, is_alert, is_source, float_from_raw,
}
use nsf_research_open_siem.Endpoint.Select.{WindowError, bad_number, raw_string}
use nsf_research_open_siem.Endpoint.Ebpf.{
  is_temp_path, looks_like_shell, looks_like_script_runtime, looks_like_download_tool,
  targets_loopback, is_container_runtime, is_sensitive_path,
}
use nsf_research_open_siem.Endpoint.State.{WindowState, add_peer, add_port, bump_by, bump_if}

abbrev write_tokens : List String
write_tokens = "write" ∷ "create" ∷ "delete" ∷ "unlink" ∷ "rename" ∷ "chmod" ∷ "chown" ∷ []

module _ (py : Runtime) where
  open py use {lower, Float, of_int, float_int, is_finite}

  abbrev pub finite_int : Float → Result WindowError ℤ
  finite_int x = if is_finite x then ok (float_int x) else raise bad_number

  -- `_raw_int`
  unfoldable pub raw_int : Event → List String → Result WindowError ℤ
  unfolding float_from_raw
  raw_int e ks = finite_int (float_from_raw py e ks)

  abbrev pub in_direction : Event → String → ℤ → ℤ → ℤ × ℤ
  in_direction e endpoint orig resp =
      if e.src_ip == some endpoint
      then (orig, resp)
      else if e.dest_ip == some endpoint
      then (resp, orig)
      else (pos 0, orig +ℤ resp)

  -- Bytes out of and into the endpoint.
  unfoldable pub directional_bytes : Event → String → Result WindowError (ℤ × ℤ)
  unfolding raw_int
  directional_bytes e endpoint = do
    orig ← raw_int e ("orig_bytes" ∷ "bytes_toserver" ∷ [])
    resp ← raw_int e ("resp_bytes" ∷ "bytes_toclient" ∷ [])
    ok (in_direction e endpoint orig resp)

  -- Where the bytes raise, the loop has raised before it changes a state (`place_all`).
  abbrev bytes_of : Result WindowError (ℤ × ℤ) → ℤ × ℤ
  bytes_of (ok bytes) = bytes
  bytes_of (raise error) = (pos 0, pos 0)

  -- The tests on an eBPF event.
  unfoldable pub event_has : String → Event → Bool
  unfolding is_in
  event_has t e = is_in t (lower e.event_type)

  unfoldable pub writes_file : Event → Bool
  unfolding any_in event_has
  writes_file e =
      event_has "file_access" e
      && any_in write_tokens (lower (or_text (raw_string py e "access_type") ""))

  unfoldable pub ebpf_features : Event → Dict String Float → Dict String Float
  unfolding event_has writes_file
  ebpf_features e d0 =
      let binary = raw_string py e "binary" in
      let command = command_of py e in
      let filename = or_text e.filename "" in
      let d1 = bump_by py "ebpf_event_count" (of_int (pos 1)) d0 in
      let d2 = bump_if py (event_has "process_exec" e) "process_execs" d1 in
      let d3 = bump_if py (event_has "process_exec" e) "process_fanout" d2 in
      let d4 = bump_if py (looks_like_shell py binary command) "shell_execs" d3 in
      let d5 = bump_if py (looks_like_script_runtime py binary command) "script_execs" d4 in
      let d6 =
        bump_if py (looks_like_download_tool py binary command && not (targets_loopback py command))
          "download_tool_execs" d5 in
      let d7 = bump_if py (event_has "network_connect" e) "outbound_connects" d6 in
      let d8 =
        bump_if py
          (event_has "privilege_change" e && not (is_container_runtime py (raw_string py e "comm")))
          "privilege_changes" d7 in
      let d9 = bump_if py (writes_file e && is_temp_path filename) "temp_file_writes" d8 in
      bump_if py (writes_file e && is_sensitive_path py filename) "sensitive_file_writes" d9

  -- A download from the host itself, seen by eBPF, does not count.
  unfoldable pub counted_download : Event → Bool
  counted_download e =
      downloads py e && not (is_source "ebpf" e && targets_loopback py (command_of py e))

  unfoldable pub event_features : Event → String → Dict String Float → Dict String Float
  unfolding ebpf_features counted_download directional_bytes
  event_features e endpoint d0 =
      let d1 = bump_by py "event_count" (of_int (pos 1)) d0 in
      let d2 = bump_if py (login_failed py e) "login_failures" d1 in
      let d3 = bump_if py (login_success py e) "login_successes" d2 in
      let d4 = bump_if py (truthy e.command) "commands" d3 in
      let d5 = bump_if py (counted_download e) "download_commands" d4 in
      let d6 = bump_if py (command_has py reverse_shell_tokens e) "reverse_shells" d5 in
      let d7 = bump_if py (command_has py persistence_tokens e) "persistence_attempts" d6 in
      let d8 = bump_if py (command_has py scanner_tokens e) "scanner_commands" d7 in
      let d9 = bump_if py (is_alert e) "suricata_alerts" d8 in
      let d10 = bump_if py (is_source "dionaea" e) "dionaea_connections" d9 in
      let d11 = bump_if py (is_source "zeek" e) "network_connections" d10 in
      let d12 = if is_source "ebpf" e then ebpf_features e d11 else d11 in
      let (bytes_out, bytes_in) = bytes_of (directional_bytes e endpoint) in
      let d13 = bump_by py "bytes_out" (of_int bytes_out) d12 in
      let d14 = bump_by py "bytes_in" (of_int bytes_in) d13 in
      bump_by py "duration_seconds" (float_from_raw py e ("duration" ∷ "age" ∷ [])) d14

  -- `if event.protocol: protocols.add(event.protocol.lower())`
  unfoldable pub add_protocol : Option String → List String → List String
  unfolding add
  add_protocol p s = if truthy p then add (lower (or_text p "")) s else s

  unfoldable pub apply_event : Event → WindowState Float → WindowState Float
  apply_event e w = record w {
    source_event_count = w.source_event_count + 1;
    features = event_features e w.endpoint w.features;
    event_types = add e.event_type w.event_types;
    protocols = add_protocol e.protocol w.protocols;
    peers = add_peer e.dest_ip w.endpoint (add_peer e.src_ip w.endpoint w.peers);
    dest_ports = add_port e.dest_port w.dest_ports;
    binaries =
        if is_source "ebpf" e then add_text (raw_string py e "binary") w.binaries else w.binaries;
    urls = add_text e.url w.urls;
    domains = add_text e.domain w.domains;
    hashes = update (values e.hashes) w.hashes;
  }

  -- `if ip != endpoint: peers.add(ip)`
  add_other : String → String → List String → List String
  add_other value endpoint s = if value == endpoint then s else add value s

  unfoldable pub apply_packet : PacketObservation → WindowState Float → WindowState Float
  unfolding add_other
  apply_packet p w = record w {
    features =
        bump_by py (if p.src_ip == w.endpoint then "bytes_out" else "bytes_in") (of_int p.length)
          (bump_by py "packet_count" (of_int (pos 1)) w.features);
    protocols = add (lower p.protocol) w.protocols;
    peers = add_other p.dest_ip w.endpoint (add_other p.src_ip w.endpoint w.peers);
    dest_ports = add_port p.dest_port w.dest_ports;
  }
