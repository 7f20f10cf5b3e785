-- ===== src/Realtime/Splunk.antt =====
-- src/honeypot_ai/realtime.py, `splunk_stream_once`, and src/honeypot_ai/splunk.py,
-- `send_to_splunk_hec`: a poll that also sends its events over the network.
use nsf_research_open_siem.Base.{
  ℕ, suc, ℤ, String, true, false, not, ◌&&◌, List, [], ◌∷◌, ◌++◌, Option, none, some, ◌≡◌,
  string_eq, if◌then◌else◌,
}
use nsf_research_open_siem.Base.Dict.{Dict, length}
use nsf_research_open_siem.Base.Text.{is_some}
use nsf_research_open_siem.Base.Result.{Result, ok, raise}
use nsf_research_open_siem.Models.{Fields}
use nsf_research_open_siem.Realtime.Read.{StreamError, rejected}
use nsf_research_open_siem.Realtime.Stream.{Disk, Pipeline, gather, appended}

pub record SplunkStreamResult : Type 0 where
  pub raw_lines : ℕ
  pub parsed_events : ℕ
  pub hec_events : ℕ
  pub sent_events : ℕ

-- The disk, and the events that the collector has accepted.
pub record World : Type 0 where
  pub disk : Disk
  pub accepted : List Fields

abbrev pub Outcome : Type 0
Outcome = Result StreamError SplunkStreamResult × World

-- The arguments that decide what a poll does: which of the two paths are given, and the address and
-- token of the collector.
pub record Targets : Type 0 where
  pub output_path : Option String
  pub state_path : Option String
  pub hec_url : Option String
  pub hec_token : Option String

-- What parsing and reporting make of raw lines.
pub record HecReport : Type 0 where
  pub parsed : ℕ
  pub events : List Fields
  pub ndjson : String

-- A poll that returned has saved the next offsets; one that raised has saved none.
abbrev pub Saved :
    Dict String ℤ → Result StreamError (List String × Dict String ℤ) → Outcome → Type 0
Saved old g (raise e, w) = w.disk.offsets ≡ old
Saved old (ok (ls, next)) (ok r, w) = w.disk.offsets ≡ next
Saved old (raise e) (ok r, w) = true ≡ false

-- One request: the text of the error that it raises, if it does.
module _ (post : List Fields → Fields → Option String) where
  abbrev sent_more : Result StreamError ℕ × List Fields → Result StreamError ℕ × List Fields
  sent_more (ok n, accepted) = (ok (suc n), accepted)
  sent_more (raise e, accepted) = (raise e, accepted)

  abbrev after_request :
      Option String
      → List Fields
      → Result StreamError ℕ × List Fields
      → Result StreamError ℕ × List Fields
  after_request none accepted more = sent_more more
  after_request (some error) accepted more = (raise (rejected error), accepted)

  -- Each event in its own request; the first one that fails stops the loop.
  unfoldable pub send_to_splunk_hec : List Fields → List Fields → Result StreamError ℕ × List Fields
  send_to_splunk_hec [] accepted = (ok 0, accepted)
  send_to_splunk_hec (e ∷ es) accepted =
      after_request (post accepted e) accepted (send_to_splunk_hec es (accepted ++ e ∷ []))

  module _ (via : Pipeline) (report : List String → Result String HecReport) where
    abbrev argument_error : Targets → Option String
    argument_error t =
        if is_some t.hec_url && not (is_some t.hec_token)
        then some "hec_url and hec_token must be provided together"
        else if is_some t.hec_token && not (is_some t.hec_url)
        then some "hec_url and hec_token must be provided together"
        else if not (is_some t.output_path) && not (is_some t.hec_url)
        then some "splunk_stream_once requires output_path and/or HEC credentials"
        else if not (is_some t.state_path) && not (is_some t.output_path)
        then some "state_path is required when no output_path is given"
        else none

    abbrev write_output : Option String → String → Disk → Disk
    write_output none payload d = d
    write_output (some path) payload d = record d { output = appended via d.output payload }

    -- The offsets are saved last.
    abbrev save_sent :
        ℕ → HecReport → Dict String ℤ → Disk → Result StreamError ℕ × List Fields → Outcome
    save_sent n r next d (ok sent, accepted) = (
      ok (record {
        raw_lines = n;
        parsed_events = r.parsed;
        hec_events = length r.events;
        sent_events = sent;
      }),
      record { disk = record d { offsets = next }; accepted = accepted },
    )
    save_sent n r next d (raise e, accepted) = (raise e, record { disk = d; accepted = accepted })

    abbrev deliver_hec : Targets → ℕ → Result String HecReport → Dict String ℤ → World → Outcome
    deliver_hec t n (raise e) next w = (raise (rejected e), w)
    deliver_hec t n (ok r) next w =
        save_sent n r next (write_output t.output_path r.ndjson w.disk) (
          if is_some t.hec_url && is_some t.hec_token
          then send_to_splunk_hec r.events w.accepted
          else (ok 0, w.accepted))

    abbrev deliver_splunk :
        Targets → Result StreamError (List String × Dict String ℤ) → World → Outcome
    deliver_splunk t (raise e) w = (raise e, w)
    deliver_splunk t (ok ([], next)) w = (
      ok (record { raw_lines = 0; parsed_events = 0; hec_events = 0; sent_events = 0 }),
      record w { disk = record w.disk { offsets = next } },
    )
    deliver_splunk t (ok (l ∷ ls, next)) w =
        deliver_hec t (length (l ∷ ls)) (report (l ∷ ls)) next w

    abbrev unless_bad : Option String → Outcome → World → Outcome
    unless_bad (some e) o w = (raise (rejected e), w)
    unless_bad none o w = o

    unfoldable pub splunk_stream_once : Targets → List String → World → Outcome
    unfolding gather send_to_splunk_hec
    splunk_stream_once t paths w =
        let d = w.disk in
        unless_bad (argument_error t)
          (deliver_splunk t (gather via d.files d.offsets paths d.offsets) w) w
