-- ===== src/Tests/Follow.antt =====
-- The theorems about runs, at a file of one full line that grows after the first poll.
use nsf_research_open_siem.Base.{
  ℕ, pos, ◌≡◌, refl, String, true, false, [], ◌∷◌, ◌++◌, none, some, string_eq, nat_eq,
}
use mathlib.Core.Option.{get_or}
use nsf_research_open_siem.Base.Dict.{lookup, insert}
use nsf_research_open_siem.Base.Bytes.{drop, take}
use nsf_research_open_siem.Base.Result.{ok}
use nsf_research_open_siem.Realtime.Read.{
  ends_newline, rfind_newline, complete_lines, read_new_complete_lines,
}
use nsf_research_open_siem.Realtime.Polls.{complete}
use nsf_research_open_siem.Realtime.Stream.{
  Disk, StreamResult, gather, payload_of, show_preview, stream_once, with_newline, no_faults,
}
use nsf_research_open_siem.Realtime.System.{append_to, Run, start, grew, polled}
use nsf_research_open_siem.Realtime.Delivery.{AllShown, delivered-pending, poll_delivers}
use nsf_research_open_siem.Realtime.Refinement.{Refines, Run-Refines-Log}
use nsf_research_open_siem.Tests.Streams.{
  lines_of, lines_of-append, no_lines, partial, grown, sample_pipeline,
}

abbrev first_disk : Disk
first_disk = record { files = λ p. some partial; offsets = []; output = none; preview = none }

abbrev second_disk : Disk
second_disk = record first_disk { offsets = ("log", pos 2) ∷ []; output = some "found\n" }

no_offset : lookup "log" first_disk.offsets ≡ none
unfolding lookup
no_offset = refl

first_poll :
    stream_once (sample_pipeline true) no_faults "raw" false ("log" ∷ []) first_disk
    ≡ (ok (record { raw_lines = 1; parsed_events = 1; alert_events = 1 }), second_disk)
unfolding stream_once gather payload_of show_preview read_new_complete_lines complete_lines
    ends_newline rfind_newline drop take lookup insert lines_of string_eq nat_eq with_newline
first_poll = refl

-- A poll, and then the end of the second line.
two_steps : Run (sample_pipeline true) "log" (append_to "log" partial grown second_disk)
two_steps = grew (polled (start {bs = partial} refl no_offset) no_faults first_poll) refl grown

grown_file : (append_to "log" partial grown second_disk).files "log" ≡ some (partial ++ grown)
unfolding string_eq
grown_file = refl

accepted :
    (o : ℕ)
    → get_or (lookup "log" second_disk.offsets) (pos 0) ≡ pos o
    → (n : ℕ) × (t : String) × ((sample_pipeline true).analyze
          (lines_of (complete (drop o (partial ++ grown))))
        ≡ ok (n, t))
accepted o h = (_, _, refl)

pending_example :
    (o : ℕ) × (get_or (lookup "log" second_disk.offsets) (pos 0) ≡ pos o)
    × AllShown (sample_pipeline true) (some "found\n") (lines_of (take o (partial ++ grown)))
    × (lines_of (take o (partial ++ grown)) ++ lines_of (complete (drop o (partial ++ grown)))
        ≡ lines_of (complete (partial ++ grown)))
pending_example =
    delivered-pending (sample_pipeline true) "log" no_lines (λ cs ds h. lines_of-append cs ds)
      two_steps (partial ++ grown) grown_file

Run-Refines-Log_example :
    Refines (sample_pipeline true) "log" (append_to "log" partial grown second_disk)
Run-Refines-Log_example =
    Run-Refines-Log (sample_pipeline true) "log" no_lines (λ cs ds h. lines_of-append cs ds)
      two_steps

delivers_example :
    (d' : Disk) × (r : StreamResult) × (stream_once
        (sample_pipeline true)
        no_faults
        "raw"
        false
        ("log" ∷ [])
        (append_to "log" partial grown second_disk)
      ≡ (ok r, d'))
    × AllShown (sample_pipeline true) d'.output (lines_of (complete (partial ++ grown)))
delivers_example =
    poll_delivers (sample_pipeline true) "log" no_lines (λ cs ds h. lines_of-append cs ds) two_steps
      (partial ++ grown) grown_file accepted
