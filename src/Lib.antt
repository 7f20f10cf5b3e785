-- ===== src/Lib.antt =====
-- The analysis core of honeypot-ai, src/honeypot_ai/ in the repository: from the events of
-- honeypot and sensor logs to sessions, risk findings and endpoint windows, and the two ways in
-- which events and packets arrive, growing files and capture files; the models of the windows, with
-- their thresholds, evaluation and alerts; and what is handed on, indicators, Wazuh records
-- and MISP attributes.
--
-- The parts and their files:
--   Models         src/honeypot_ai/models.py: Event, SessionFeatures, RiskFinding and the other
--                  dataclasses as records, JSON values as a data type. A datetime is its number of
--                  microseconds since 1970 in UTC, a set is a list without repetition.
--   Runtime        what the code takes from Python and does not define: case folding, conversions
--                  of JSON values, doubles, ipaddress. A definition takes it as a parameter.
--   Mitre          src/honeypot_ai/mitre.py: map_event.
--   Features       src/honeypot_ai/features.py: _apply_event, _session_key and aggregate_sessions
--                  (Defs), totals (Counts), what holds of each session (Invariant), times (Window).
--   Detectors      src/honeypot_ai/detectors.py: _heuristic_score in quarter points (Heuristic,
--                  Score), _robust_anomaly_scores (Anomaly), score_sessions (Findings, Report) and
--                  the techniques of a session (Techniques). Laws names what is used of doubles.
--   Correlation    src/honeypot_ai/correlation.py: correlate_actors (Actors) and its totals (Visits).
--   Endpoint       src/honeypot_ai/endpoint.py: _select_endpoint (Select, Roles), _window_start
--                  (Time), the eBPF tests (Ebpf), the state of a window and what an event changes
--                  in it (State, Apply), build_endpoint_windows and weak_label (Windows), and the
--                  theorems about them (Totals, Labels, Invariant), and windows as records of a
--                  JSON dataset in both directions (Records, Dataset).
--   Packets        src/honeypot_ai/packets.py: parse_ethernet_frame (Frame, Bounds) and iter_pcap
--                  (Pcap, Capture) on lists of bytes.
--   Parsers        src/honeypot_ai/parsers.py: the fields of a record (Values), detect_source (Detect),
--                  the parsers of the sensors (Records, Generic, Tpot) and parse_ndjson (Lines), with
--                  the theorems in Kept and Batches.
--   Realtime       src/honeypot_ai/realtime.py: _read_new_complete_lines (Read, Polls),
--                  stream_once, whose state is the disk (Stream, Atomic), runs of polls of a file
--                  that grows and the at-least-once log that they refine (System, Followed,
--                  Refinement), what the output then holds (Delivery), the state file (Offsets,
--                  Saved), _validate_wazuh_lines (Validate), and splunk_stream_once with
--                  send_to_splunk_hec of splunk.py (Splunk).
--   Ml             src/honeypot_ai/ml.py: threshold candidates (Candidates) and what their counts
--                  say (Ties, Counts, Covers), the choice of a threshold (Calibration, Choice), the
--                  names of scorers and objectives (Names), scorers and severities (Scorers),
--                  metrics (Metrics, Confusion), splits by time (Split, Temporal), fitting (Fit,
--                  Trained), train_model and train_calibrated_model (Train, Selected, Safety),
--                  evaluate_temporal_split (Evaluate), tune_temporal_split (Tune), and alerts
--                  (Alerts, Raised). Numerics holds what is taken from numpy, scikit-learn and River.
--   Export         src/honeypot_ai/ioc.py: extract_iocs (Iocs, Known); src/honeypot_ai/wazuh.py:
--                  one flat record for each row of a report (Records, Wazuh, Marked);
--                  src/honeypot_ai/misp.py: misp_attributes_to_wazuh_cdb (Cdb, Keys, Rows);
--                  src/honeypot_ai/exports.py: report_to_misp_attributes (Misp, Deduped). Each
--                  holds what the indicators and the attributes share.
--   Base           helpers: equality, integers, dicts, lists, grouping, sorting, bytes, texts, results.
--   Tests          the theorems at concrete inputs.
-- Sessions, windows and actors are made by one loop, `d.setdefault(key, new)` and then a change of the
-- object, which Base.Group models with the lemmas that these parts share. A poll of Realtime hands
-- its lines to the analysis, which it takes as a record of operations; the windows of Endpoint are
-- what Ml trains on and scores; the mark that Export gives a record is what Realtime validates.
--
-- A loop over a list is recursion on the list. The loop over the records of a capture file takes
-- fuel, the length of the file, of which each record takes 16 bytes or more. The loop over sorted
-- scores takes their number as fuel, of which each candidate takes one or more.
-- Numbers of Python are unbounded; the fields of packets and captures are written out in bytes.
-- Doubles are those of the run time; scores are neither NaN nor infinite, and laws of doubles and of
-- numpy stand as records of hypotheses where a proof needs them. `int()` of a byte count that is not
-- finite, and a time outside the years 1 to 9999, raise as in the code. `timestamp()` is a double, so
-- the whole seconds that it gives are the run time's. The times of datasets are whole seconds.
-- A poll takes what the operating system does to its two writes, of the output and of the state file,
-- as an argument: none, a part or all of a text may be written when it raises.
--
-- Not modelled: the command line, SQL, HTML, Markdown, requests to MISP, the records for Splunk,
-- language models and the parts in Rust. Datasets in CSV are left out of Endpoint, the raw socket
-- out of Packets, the files of models and the constants that a training report repeats out of Ml, the sleeping between
-- polls and errors of reading a file out of Realtime. In the counters of sessions and the offsets of
-- a state file, `int()` of an infinity, which raises an error that the code does not catch, is not told
-- apart from the failures that it does catch.
pub mod Base
pub mod Models
pub mod Runtime
pub mod Mitre
pub mod Features
pub mod Detectors
pub mod Correlation
pub mod Endpoint
pub mod Packets
pub mod Parsers
pub mod Realtime
pub mod Ml
pub mod Export
mod Tests
