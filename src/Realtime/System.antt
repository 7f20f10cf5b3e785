-- ===== src/Realtime/System.antt =====
-- src/honeypot_ai/realtime.py, `stream_forever`: polls of one file that grows between them.
-- The program keeps nothing but the disk from a poll to the next one.
use mathlib.Core.Option.{get_or}
use nsf_research_open_siem.Base.{
  ℕ, pos, ◌≡◌, String, ◌<>◌, false, List, [], ◌∷◌, ◌++◌, Option, none, some, ◌==◌, string_eq,
  if◌then◌else◌,
}
use nsf_research_open_siem.Base.Dict.{length, lookup}
use nsf_research_open_siem.Base.Result.{Result, ok}
use nsf_research_open_siem.Realtime.Read.{StreamError}
use nsf_research_open_siem.Realtime.Polls.{Closed}
use nsf_research_open_siem.Realtime.Stream.{
  Disk, Faults, Pipeline, StreamResult, appended, text_of, stream_once,
}

-- A writer appends to the file `p`.
abbrev pub append_to : String → List ℕ → List ℕ → Disk → Disk
append_to p bs new d = record d { files = λ q. if q == p then some (bs ++ new) else d.files q }

-- The abstract log of a reader that passes on each line at least once: the complete lines that were
-- written, those that the reader has behind it, and the output. What it delivers is the analysis of
-- all the lines ahead of it; a crash may repeat a delivery, leave a part of one, or send it back to
-- the beginning.
pub data Log (via : Pipeline) : List String → List String → Option String → Type 0 where
  opened : {written : List String} {out : Option String} → Log via written [] out
  wrote :
      {written behind : List String} {out : Option String}
      → Log via written behind out
      → (more : List String) → Log via (written ++ more) behind out
  delivered :
      {written behind : List String} {out : Option String}
      → Log via written behind out
      → (batch : List String) (n : ℕ) (payload : String) → behind ++ batch ≡ written
      → via.analyze batch ≡ ok (n, payload)
      → Log via written (behind ++ batch) (appended via out payload)
  not_noted :
      {written behind : List String} {out : Option String}
      → Log via written behind out
      → (batch : List String) (n : ℕ) (payload : String) → behind ++ batch ≡ written
      → via.analyze batch ≡ ok (n, payload)
      → Log via written behind (appended via out payload)
  torn :
      {written behind : List String} {out : Option String}
      → Log via written behind out
      → (part : String) → Log via written behind (some (text_of out <> part))
  sent_back :
      {written behind : List String} {out : Option String}
      → Log via written behind out
      → Log via written [] out

-- The steps of `while True: stream_once(…)` and of the writer. Every poll may meet faults of the
-- operating system, and a poll that raises ends the program, which is started again. A program that
-- is killed between its writes leaves what a write that raises there leaves.
pub data Run (via : Pipeline) (p : String) : Disk → Type 0 where
  start : {d : Disk} {bs : List ℕ} → d.files p ≡ some bs → lookup p d.offsets ≡ none → Run via p d
  grew :
      {d : Disk} {bs : List ℕ}
      → Run via p d
      → d.files p ≡ some bs
      → (new : List ℕ) → Run via p (append_to p bs new d)
  polled :
      {d d' : Disk} {r : Result StreamError StreamResult}
      → Run via p d
      → (io : Faults) → stream_once via io "raw" false (p ∷ []) d ≡ (r, d')
      → Run via p d'

-- The saved offset stands at the end of a line of the file.
pub record Followed (p : String) (d : Disk) : Type 0 where
  pub bytes : List ℕ
  pub passed : List ℕ
  pub ahead : List ℕ
  pub split : bytes ≡ passed ++ ahead
  pub file : d.files p ≡ some bytes
  pub offset : get_or (lookup p d.offsets) (pos 0) ≡ pos (length passed)
  pub closed : Closed passed
