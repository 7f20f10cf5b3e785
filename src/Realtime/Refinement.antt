-- ===== src/Realtime/Refinement.antt =====
-- src/honeypot_ai/realtime.py: the polls of a growing file as a reader of a log.
use mathlib.Core.Path.{subst}
use mathlib.Core.List.{append-nil}
use nsf_research_open_siem.Base.{
  ℕ, ◌≡◌, refl, sym, ap, ◌∙◌, String, ◌<>◌, true, false, List, [], ◌∷◌, ◌++◌, Option, none, some,
  string_eq, inl, inr, Bool-cases,
}
use nsf_research_open_siem.Base.Dict.{length, lookup}
use nsf_research_open_siem.Base.Text.{is_some}
use nsf_research_open_siem.Base.Result.{Result, ok, raise}
use nsf_research_open_siem.Realtime.Read.{ends_newline}
use nsf_research_open_siem.Realtime.Polls.{complete, rest}
use nsf_research_open_siem.Realtime.Stream.{
  Disk, Pipeline, Faults, WriteFault, unopened, cut, Left, as_before, emptied, renewed,
  left_offsets, appended, text_of, Outcome, rejecting, save_then, payload_of, show_preview, emit,
  deliver, stream_once,
}
use nsf_research_open_siem.Realtime.System.{
  Log, opened, wrote, delivered, not_noted, torn, sent_back, append_to, Run, start, grew, polled,
  Followed,
}
use nsf_research_open_siem.Realtime.Followed.{
  stay, back, next_offsets, forward, grown, gather_new, whole, passed_on, written_more,
}

module _ (via : Pipeline) (p : String) where
  open via use {decode_lines, analyze}

  -- The complete lines of the file are the abstract log's written lines, those before the saved
  -- offset are behind its reader, and the output is its output.
  abbrev pub Refines : Disk → Type 0
  Refines d =
      (f : Followed p d) × Log via (decode_lines (complete f.bytes)) (decode_lines f.passed)
        d.output

  module _ (z : decode_lines [] ≡ [])
      (splits : (cs ds : List ℕ)
        → ends_newline cs ≡ true
        → decode_lines (cs ++ ds) ≡ decode_lines cs ++ decode_lines ds) where
    restarted :
        {d : Disk} {out : Option String} (f : Followed p d)
        → Log via (decode_lines (complete f.bytes)) (decode_lines f.passed) out
        → Refines (record d { output = out; offsets = [] })
    restarted {d} {out} f l = (
      back p f out,
      subst (λ b. Log via (decode_lines (complete f.bytes)) b out) (sym z) (sent_back l),
    )

    moved :
        {d : Disk} {out : Option String} (f : Followed p d)
        → Log via
            (decode_lines (complete f.bytes))
            (decode_lines f.passed ++ decode_lines (complete f.ahead))
            out
        → Refines (record d { output = out; offsets = next_offsets p f })
    moved {d} {out} f l = (
      forward p f out,
      subst (λ b. Log via (decode_lines (complete f.bytes)) b out)
          (sym (passed_on p via z splits f)) l,
    )

    -- What a write of the state file leaves, whether it raises or not.
    left-Refines :
        {d : Disk} {out : Option String} (left : Left) (f : Followed p d)
        → Log via (decode_lines (complete f.bytes)) (decode_lines f.passed) out
        → Log via
            (decode_lines (complete f.bytes))
            (decode_lines f.passed ++ decode_lines (complete f.ahead))
            out
        → Refines
            (record d { output = out; offsets = left_offsets left d.offsets (next_offsets p f) })
    left-Refines {d} {out} as_before f k l = (stay p f out, k)
    left-Refines emptied f k l = restarted f k
    left-Refines renewed f k l = moved f l

    no_news :
        {d : Disk} (f : Followed p d)
        → decode_lines (complete f.ahead) ≡ []
        → Log via (decode_lines (complete f.bytes)) (decode_lines f.passed) d.output
        → Log via
            (decode_lines (complete f.bytes))
            (decode_lines f.passed ++ decode_lines (complete f.ahead))
            d.output
    no_news {d} f n l =
        subst (λ b. Log via (decode_lines (complete f.bytes)) b d.output)
          (sym (ap (◌++◌ (decode_lines f.passed)) n ∙ append-nil (decode_lines f.passed))) l

    saved-Refines :
        {d : Disk} (f : Followed p d) (s : Option (Left × String)) (go : Disk → Outcome)
        → ((e : Disk) → (go e).1 ≡ e)
        → (out : Option String)
        → Log via (decode_lines (complete f.bytes)) (decode_lines f.passed) out
        → Log via
            (decode_lines (complete f.bytes))
            (decode_lines f.passed ++ decode_lines (complete f.ahead))
            out
        → Refines ((save_then via s (next_offsets p f) (record d { output = out }) go).1)
    saved-Refines {d} f none go same out k l =
        subst Refines (sym (same (record d { output = out; offsets = next_offsets p f })))
          (moved f l)
    saved-Refines f (some (left, error)) go same out k l = left-Refines left f k l

    idle-Refines :
        {d : Disk} (f : Followed p d) (io : Faults)
        → decode_lines (complete f.ahead) ≡ []
        → Log via (decode_lines (complete f.bytes)) (decode_lines f.passed) d.output
        → Refines ((deliver via io "raw" false (ok ([], next_offsets p f)) d).1)
    unfolding show_preview
    idle-Refines {d} f io n l = elim (Bool-cases (is_some d.output)) [
      | inl t ↦ rw t (saved-Refines f io.save _ (λ e. refl) d.output l (no_news f n l))
      | inr t ↦ rw t (saved-Refines f io.save _ (λ e. refl) d.output l (no_news f n l))
    ]

    emit-Refines :
        {d : Disk} (f : Followed p d) (w : Option WriteFault) (s : Option (Left × String)) (n : ℕ)
        (r : Result String (ℕ × String))
        → analyze (decode_lines (complete f.ahead)) ≡ r
        → Log via (decode_lines (complete f.bytes)) (decode_lines f.passed) d.output
        → Refines (
            (emit via
              (record { write = w; save = s })
              false
              n
              (rejecting via r)
              (next_offsets p f)
              d).1)
    unfolding show_preview
    emit-Refines f w s n (raise e) a l = (f, l)
    emit-Refines f (some (unopened error)) s n (ok (k, t)) a l = (f, l)
    emit-Refines {d} f (some (cut part error)) s n (ok (k, t)) a l =
        (stay p f (some (text_of d.output <> part)), torn l part)
    emit-Refines {d} f none s n (ok (k, t)) a l =
        let batch = decode_lines (complete f.ahead) in
        saved-Refines f s _ (λ e. refl) (appended via d.output t)
          (not_noted l batch k t (whole p via z splits f) a)
          (delivered l batch k t (whole p via z splits f) a)

    deliver-Refines :
        {d : Disk} (f : Followed p d) (io : Faults) (ls : List String)
        → decode_lines (complete f.ahead) ≡ ls
        → Log via (decode_lines (complete f.bytes)) (decode_lines f.passed) d.output
        → Refines ((deliver via io "raw" false (ok (ls, next_offsets p f)) d).1)
    unfolding payload_of
    deliver-Refines f io [] new l = idle-Refines f io new l
    deliver-Refines f io (x ∷ ls) new l =
        emit-Refines f io.write io.save (length (x ∷ ls)) (analyze (x ∷ ls)) (ap analyze new) l

    poll-Refines :
        {d : Disk} (io : Faults)
        → Refines d
        → Refines ((stream_once via io "raw" false (p ∷ []) d).1)
    unfolding stream_once
    poll-Refines {d} io (f, l) =
        rw (gather_new p via z splits f)
          (deliver-Refines f io (decode_lines (complete f.ahead)) refl l)

    grown-Refines :
        {d : Disk} {bs : List ℕ}
        → Refines d
        → d.files p ≡ some bs
        → (new : List ℕ) → Refines (append_to p bs new d)
    grown-Refines {d} {bs} (f, l) h new = (
      grown p f h new,
      subst (λ w. Log via w (decode_lines f.passed) d.output)
          (sym (written_more p via z splits f.bytes new))
          (wrote l (decode_lines (complete (rest f.bytes ++ new)))),
    )

    -- On every run of a writer and of polls, which may raise in the analysis or because the system
    -- refuses a write, and are then started again, the disk refines the abstract log: the complete
    -- lines of the file are the written lines, those before the saved offset are behind the reader,
    -- and the output is what the log's deliveries and crashes made it.
    pub Run-Refines-Log : {d : Disk} → Run via p d → Refines d
    unfolding lookup
    Run-Refines-Log (start {d} {bs} h n) = (
      record {
        bytes = bs;
        passed = [];
        ahead = bs;
        split = refl;
        file = h;
        offset = rw n refl;
        closed = tt;
      },
      subst (λ b. Log via (decode_lines (complete bs)) b d.output) (sym z) opened,
    )
    Run-Refines-Log (grew run h new) = grown-Refines (Run-Refines-Log run) h new
    Run-Refines-Log (polled run io s) =
        subst Refines (ap (λ o. o.1) s) (poll-Refines io (Run-Refines-Log run))
