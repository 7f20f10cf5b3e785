-- ===== src/Realtime/Stream.antt =====
-- src/honeypot_ai/realtime.py, `stream_once`: one poll of the followed files.
-- The disk is the state: the files, the offsets of the state file, the output and the preview.
use mathlib.Core.Option.{get_or}
use nsf_research_open_siem.Base.{
  ℕ, ℤ, pos, String, ◌<>◌, Bool, true, false, ◌||◌, List, [], ◌∷◌, ◌++◌, Option, none, some, ◌==◌,
  string_eq, if◌then◌else◌,
}
use nsf_research_open_siem.Base.Dict.{Dict, length, lookup, insert}
use nsf_research_open_siem.Base.Text.{is_some, ends_with}
use nsf_research_open_siem.Base.Result.{Result, ok, raise, ◌>>=◌}
use nsf_research_open_siem.Realtime.Read.{
  StreamError, bad_format, rejected, io_error, read_new_complete_lines,
}

pub record StreamResult : Type 0 where
  pub raw_lines : ℕ
  pub parsed_events : ℕ
  pub alert_events : ℕ

pub record Disk : Type 0 where
  pub files : String → Option (List ℕ)
  pub offsets : Dict String ℤ
  pub output : Option String
  pub preview : Option String

-- What a poll calls. An error is the text of what is raised.
pub record Pipeline : Type 0 where
  -- `decode(…).splitlines()`, and the lines of a text that are not blank
  pub decode_lines : List ℕ → List String
  pub count_lines : String → ℕ
  -- parsing and analysis of raw lines: the number of events, and the payload
  pub analyze : List String → Result String (ℕ × String)
  -- `_validate_wazuh_lines`
  pub validate : List String → Result String String
  -- the preview of an output file
  pub render : Option String → Result String String

-- An `OSError` of the output: the file was not opened, or a part of the text was written.
pub data WriteFault : Type 0 where
  unopened : String → WriteFault
  cut : String → String → WriteFault

-- What a state file says after a write of it that raised: it was not opened, or it holds a part of
-- the text, which JSON does not read, or all of it.
pub data Left : Type 0 where
  as_before : Left
  emptied : Left
  renewed : Left

-- What the operating system does to the writes of one poll.
pub record Faults : Type 0 where
  pub write : Option WriteFault
  pub save : Option (Left × String)

abbrev pub no_faults : Faults
no_faults = record { write = none; save = none }

abbrev pub left_offsets : Left → Dict String ℤ → Dict String ℤ → Dict String ℤ
left_offsets as_before old next = old
left_offsets emptied old next = []
left_offsets renewed old next = next

abbrev pub text_of : Option String → String
text_of none = ""
text_of (some s) = s

abbrev pub Outcome : Type 0
Outcome = Result StreamError StreamResult × Disk

module _ (via : Pipeline) where
  open via use {decode_lines, count_lines, analyze, validate, render}

  -- The loop over the paths: the offsets that it reads are those of the state file, and it sets the
  -- next ones.
  unfoldable pub gather :
      (String → Option (List ℕ))
      → Dict String ℤ
      → List String
      → Dict String ℤ
      → Result StreamError (List String × Dict String ℤ)
  unfolding string_eq lookup insert
  gather files offsets [] next = ok ([], next)
  gather files offsets (p ∷ ps) next = do
    r ← read_new_complete_lines decode_lines (files p) (get_or (lookup p offsets) (pos 0))
    s ← gather files offsets ps (insert p (r.1) next)
    ok (r.0 ++ s.0, s.1)

  abbrev counted : ℕ → Result StreamError String → Result StreamError (ℕ × String)
  counted n (ok t) = ok (n, t)
  counted n (raise e) = raise e

  abbrev pub rejecting : {A : Type 0} → Result String A → Result StreamError A
  rejecting (ok a) = ok a
  rejecting (raise e) = raise (rejected e)

  -- The payload for the output, with the number of parsed events.
  unfoldable pub payload_of : String → List String → Result StreamError (ℕ × String)
  unfolding string_eq
  payload_of input_format lines =
      if input_format == "wazuh"
      then counted (length lines) (rejecting (validate lines))
      else rejecting (analyze lines)

  -- What is written for a payload, and the output with it at its end.
  unfoldable pub with_newline : String → String
  unfolding string_eq ends_with
  with_newline t = if t == "" then t else if ends_with t "\n" then t else t <> "\n"

  abbrev pub appended : Option String → String → Option String
  appended none t = some (with_newline t)
  appended (some s) t = some (s <> with_newline t)

  abbrev previewed : Result StreamError String → StreamResult → Disk → Outcome
  previewed (ok html) r d = (ok r, record d { preview = some html })
  previewed (raise e) r d = (raise e, d)

  -- `if preview_output: write_dashboard_preview(…)`, as the last step
  unfoldable pub show_preview : Bool → StreamResult → Disk → Outcome
  show_preview false r d = (ok r, d)
  show_preview true r d = previewed (rejecting (render d.output)) r d

  abbrev none_read : StreamResult
  none_read = record { raw_lines = 0; parsed_events = 0; alert_events = 0 }

  -- `_save_offsets`, and what follows it
  abbrev pub save_then : Option (Left × String) → Dict String ℤ → Disk → (Disk → Outcome) → Outcome
  save_then none next d go = go (record d { offsets = next })
  save_then (some (left, error)) next d go =
      (raise (io_error error), record d { offsets = left_offsets left d.offsets next })

  -- The payload is written to the end of the output, and what follows.
  abbrev pub write_then : Option WriteFault → String → Disk → (Disk → Outcome) → Outcome
  write_then none payload d go = go (record d { output = appended d.output payload })
  write_then (some (unopened error)) payload d go = (raise (io_error error), d)
  write_then (some (cut part error)) payload d go =
      (raise (io_error error), record d { output = some (text_of d.output <> part) })

  -- The offsets are saved after the preview when there is no new line.
  abbrev save_after : Faults → Dict String ℤ → Outcome → Outcome
  save_after io next (ok r, d) = save_then io.save next d (λ saved. (ok r, saved))
  save_after io next (raise e, d) = (raise e, d)

  abbrev pub emit :
      Faults → Bool → ℕ → Result StreamError (ℕ × String) → Dict String ℤ → Disk → Outcome
  emit io preview n (raise e) next d = (raise e, d)
  emit io preview n (ok (parsed, payload)) next d = write_then io.write payload d (λ written.
      save_then io.save next written (
        show_preview preview
          (record { raw_lines = n; parsed_events = parsed; alert_events = count_lines payload })))

  abbrev pub deliver :
      Faults → String → Bool → Result StreamError (List String × Dict String ℤ) → Disk → Outcome
  deliver io input_format preview (raise e) d = (raise e, d)
  deliver io input_format preview (ok ([], next)) d =
      save_after io next
        (if is_some d.output then show_preview preview none_read d else (ok none_read, d))
  deliver io input_format preview (ok (l ∷ ls, next)) d =
      emit io preview (length (l ∷ ls)) (payload_of input_format (l ∷ ls)) next d

  unfoldable pub stream_once : Faults → String → Bool → List String → Disk → Outcome
  unfolding string_eq gather payload_of show_preview
  stream_once io input_format preview paths d =
      if input_format == "raw" || input_format == "wazuh"
      then deliver io input_format preview (gather d.files d.offsets paths d.offsets) d
      else (raise bad_format, d)
