-- ===== src/Realtime/Atomic.antt =====
-- src/honeypot_ai/realtime.py: what a poll leaves on the disk when it raises.
use nsf_research_open_siem.Base.{
  ℕ, ◌+◌, ◌≤◌, pos, ◌≡◌, refl, ℤ, String, ◌<>◌, false, ◌||◌, ◌==◌, List, [], ◌∷◌, Option, none,
  some, string_eq, inl, inr, Bool-cases,
}
use mathlib.Core.Path.{subst}
use nsf_research_open_siem.Base.Dict.{Dict, length, lookup, insert}
use nsf_research_open_siem.Base.Result.{Result, ok, raise}
use nsf_research_open_siem.Realtime.Polls.{complete, read_new_complete_lines_lem}
use nsf_research_open_siem.Base.Text.{is_some}
use nsf_research_open_siem.Base.Bytes.{drop}
use mathlib.Core.List.{append-nil}
use nsf_research_open_siem.Realtime.Read.{StreamError, bad_format, io_error}
use nsf_research_open_siem.Realtime.Stream.{
  Disk, Pipeline, Outcome, Faults, WriteFault, unopened, cut, Left, left_offsets, text_of,
  no_faults, gather, payload_of, show_preview, appended, emit, deliver, stream_once,
}

-- What a poll without a preview that raises may leave of the disk `d`: all as it was; a part of a
-- payload at the end of the output; or, after the payload of the new lines was appended or if there
-- were none, the state file of a write that failed.
pub data LeftBy (via : Pipeline) (io : Faults) (f : String) (paths : List String) (d : Disk)
    : StreamError → Disk → Type 0 where
  unchanged : (e : StreamError) → LeftBy via io f paths d e d
  part_written :
      (part error : String)
      → io.write ≡ some (cut part error)
      → LeftBy via io f paths d
          (io_error error)
          (record d { output = some (text_of d.output <> part) })
  idle_unsaved :
      (left : Left) (error : String) (next : Dict String ℤ)
      → io.save ≡ some (left, error)
      → gather via d.files d.offsets paths d.offsets ≡ ok ([], next)
      → LeftBy via io f paths d
          (io_error error)
          (record d { offsets = left_offsets left d.offsets next })
  written_unsaved :
      (left : Left) (error : String) (lines : List String) (n : ℕ) (payload : String)
      (next : Dict String ℤ)
      → io.write ≡ none
      → io.save ≡ some (left, error)
      → gather via d.files d.offsets paths d.offsets ≡ ok (lines, next)
      → payload_of via f lines ≡ ok (n, payload)
      → LeftBy via io f paths d (io_error error) (record d {
        output = appended via d.output payload;
        offsets = left_offsets left d.offsets next;
      })

module _ (via : Pipeline) (f : String) (paths : List String) (d : Disk) where
  abbrev Kept : Faults → Outcome → Type 0
  Kept io (ok r, d') = Unit
  Kept io (raise e, d') = LeftBy via io f paths d e d'

  idle-Kept :
      (io : Faults) (w : Option WriteFault) (s : Option (Left × String)) (next : Dict String ℤ)
      → io.save ≡ s
      → gather via d.files d.offsets paths d.offsets ≡ ok ([], next)
      → Kept io (deliver via (record { write = w; save = s }) f false (ok ([], next)) d)
  unfolding show_preview
  idle-Kept io w none next e g = elim (Bool-cases (is_some d.output)) [
    | inl t ↦ rw t tt
    | inr n ↦ rw n tt
  ]
  idle-Kept io w (some (left, error)) next e g = elim (Bool-cases (is_some d.output)) [
    | inl t ↦ rw t (idle_unsaved left error next e g)
    | inr n ↦ rw n (idle_unsaved left error next e g)
  ]

  emit-Kept :
      (io : Faults) (w : Option WriteFault) (s : Option (Left × String)) (lines : List String)
      (next : Dict String ℤ) (m : ℕ) (r : Result StreamError (ℕ × String))
      → io.write ≡ w
      → io.save ≡ s
      → gather via d.files d.offsets paths d.offsets ≡ ok (lines, next)
      → payload_of via f lines ≡ r
      → Kept io (emit via (record { write = w; save = s }) false m r next d)
  unfolding show_preview
  emit-Kept io w s ls next m (raise e) a b g p = unchanged e
  emit-Kept io (some (unopened error)) s ls next m (ok (k, t)) a b g p = unchanged (io_error error)
  emit-Kept io (some (cut part error)) s ls next m (ok (k, t)) a b g p = part_written part error a
  emit-Kept io none none ls next m (ok (k, t)) a b g p = tt
  emit-Kept io none (some (left, error)) ls next m (ok (k, t)) a b g p =
      written_unsaved left error ls k t next a b g p

  deliver-Kept :
      (io : Faults) (g : Result StreamError (List String × Dict String ℤ))
      → gather via d.files d.offsets paths d.offsets ≡ g
      → Kept io (deliver via io f false g d)
  deliver-Kept io (raise e) h = unchanged e
  deliver-Kept io (ok ([], next)) h = idle-Kept io io.write io.save next refl h
  deliver-Kept io (ok (l ∷ ls, next)) h =
      emit-Kept io io.write io.save (l ∷ ls) next (length (l ∷ ls)) (payload_of via f (l ∷ ls)) refl
        refl h refl

  kept : (io : Faults) → Kept io (stream_once via io f false paths d)
  unfolding stream_once
  kept io = elim (Bool-cases (f == "raw" || f == "wazuh")) [
    | inl t ↦ rw t (deliver-Kept io (gather via d.files d.offsets paths d.offsets) refl)
    | inr n ↦ rw n (unchanged bad_format)
  ]

  -- A poll without a preview that raises leaves the disk as it was, unless the system refused the
  -- write of the output or of the state file: then a part of the payload may stand in the output, or
  -- the whole payload with a state file that was not replaced, torn, or replaced.
  pub stream_once-raise :
      (io : Faults) (d' : Disk) (e : StreamError)
      → stream_once via io f false paths d ≡ (raise e, d')
      → LeftBy via io f paths d e d'
  stream_once-raise io d' e h = subst (Kept io) h (kept io)

module _ (via : Pipeline) where
  -- A raw poll of one file, from an offset inside it and with analysis that accepts its new complete
  -- lines, appends the payload and moves the offset past those lines; nothing else changes.
  pub stream_once-raw :
      (p : String) (bs : List ℕ) (o : ℕ) (l : String) (ls : List String) (n : ℕ) (t : String)
      (d : Disk)
      → via.decode_lines [] ≡ []
      → d.files p ≡ some bs
      → lookup p d.offsets ≡ some (pos o)
      → o ≤ length bs
      → via.decode_lines (complete (drop o bs)) ≡ l ∷ ls
      → via.analyze (l ∷ ls) ≡ ok (n, t)
      → stream_once via no_faults "raw" false (p ∷ []) d ≡ (
        ok (record {
          raw_lines = length (l ∷ ls);
          parsed_events = n;
          alert_events = via.count_lines t;
        }),
        record d {
          output = appended via d.output t;
          offsets = insert p (pos (o + length (complete (drop o bs)))) d.offsets;
        },
      )
  unfolding stream_once gather payload_of show_preview
  stream_once-raw p bs o l ls n t d z f k i new a =
      rw (f, k, read_new_complete_lines_lem via.decode_lines bs o z i, new, append-nil ls, a) refl
