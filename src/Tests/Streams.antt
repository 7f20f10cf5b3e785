-- ===== src/Tests/Streams.antt =====
-- The theorems about following files, at a file of two lines.
use nsf_research_open_siem.Base.{
  ℕ, ◌+◌, pos, ◌≡◌, refl, ap, String, Bool, true, false, List, [], ◌∷◌, ◌++◌, some, none, arith,
  string_eq, nat_eq, ◌==◌, if◌then◌else◌, Bool-cases, inl, inr,
}
use nsf_research_open_siem.Base.Dict.{length, lookup, insert}
use nsf_research_open_siem.Base.Bytes.{drop, take}
use nsf_research_open_siem.Base.Result.{Result, ok, raise}
use nsf_research_open_siem.Realtime.Read.{
  io_error, ends_newline, rfind_newline, complete_lines, read_new_complete_lines,
}
use nsf_research_open_siem.Realtime.Polls.{complete, read_new_complete_lines-append}
use nsf_research_open_siem.Realtime.Stream.{
  Disk, Pipeline, appended, gather, payload_of, show_preview, stream_once, with_newline, Faults,
  no_faults, emptied,
}
use nsf_research_open_siem.Realtime.Atomic.{LeftBy, stream_once-raise, stream_once-raw}

-- One line for each newline.
unfoldable pub lines_of : List ℕ → List String
lines_of [] = []
lines_of (b ∷ bs) = if b == 10 then "line" ∷ lines_of bs else lines_of bs

pub lines_of-append : (cs ds : List ℕ) → lines_of (cs ++ ds) ≡ lines_of cs ++ lines_of ds
unfolding lines_of
lines_of-append [] ds = refl
lines_of-append (c ∷ cs) ds = elim (Bool-cases (c == 10)) [
  | inl t ↦ rw t (ap (◌∷◌ "line") (lines_of-append cs ds))
  | inr f ↦ rw f (lines_of-append cs ds)
]

pub no_lines : lines_of [] ≡ []
unfolding lines_of
no_lines = refl

-- A full line and the beginning of a second one, which `grown` ends.
abbrev pub partial : List ℕ
partial = 97 ∷ 10 ∷ 98 ∷ []

abbrev pub grown : List ℕ
grown = 99 ∷ 10 ∷ []

polls_example :
    (l1 : List String) × (l2 : List String) × (o1 : ℕ) × (o2 : ℕ) × (read_new_complete_lines
        lines_of
        (some partial)
        (pos 0)
      ≡ ok (l1, pos o1))
    × (read_new_complete_lines lines_of (some (partial ++ grown)) (pos o1) ≡ ok (l2, pos o2))
    × (read_new_complete_lines lines_of (some (partial ++ grown)) (pos 0) ≡ ok (l1 ++ l2, pos o2))
polls_example =
    read_new_complete_lines-append lines_of partial grown 0 no_lines
      (λ cs ds h. lines_of-append cs ds) (omega arith)

abbrev pub analysed : Bool → List String → Result String (ℕ × String)
analysed true ls = ok (length ls, "found")
analysed false ls = raise "invalid JSON"

abbrev pub sample_pipeline : Bool → Pipeline
sample_pipeline accepts = record {
  decode_lines = lines_of;
  count_lines = λ t. 1;
  analyze = analysed accepts;
  validate = λ ls. ok "";
  render = λ o. ok "";
}

abbrev sample_disk : Disk
sample_disk = record {
  files = λ p. some partial;
  offsets = ("log", pos 0) ∷ [];
  output = none;
  preview = none;
}

one_line : lines_of (complete (drop 0 partial)) ≡ "line" ∷ []
unfolding lines_of complete drop nat_eq
one_line = refl

has_offset : lookup "log" sample_disk.offsets ≡ some (pos 0)
unfolding lookup string_eq
has_offset = refl

poll_example : stream_once (sample_pipeline true) no_faults "raw" false ("log" ∷ []) sample_disk ≡ (
  ok (record { raw_lines = 1; parsed_events = 1; alert_events = 1 }),
  record sample_disk {
    output = appended (sample_pipeline true) none "found";
    offsets = insert "log" (pos (0 + length (complete (drop 0 partial)))) sample_disk.offsets;
  },
)
poll_example =
    stream_once-raw (sample_pipeline true) "log" partial 0 "line" [] 1 "found" sample_disk no_lines
      refl has_offset (omega arith) one_line refl

-- The disk is full when the state file is written.
abbrev full_disk : Faults
full_disk = record { write = none; save = some (emptied, "no space left") }

abbrev torn_disk : Disk
torn_disk = record sample_disk { output = some "found\n"; offsets = [] }

poll_raises :
    stream_once (sample_pipeline true) full_disk "raw" false ("log" ∷ []) sample_disk
    ≡ (raise (io_error "no space left"), torn_disk)
unfolding stream_once gather payload_of show_preview read_new_complete_lines complete_lines
    ends_newline rfind_newline drop take lookup insert lines_of string_eq nat_eq with_newline
poll_raises = refl

raise_example :
    LeftBy
      (sample_pipeline true)
      full_disk
      "raw"
      ("log" ∷ [])
      sample_disk
      (io_error "no space left")
      torn_disk
raise_example =
    stream_once-raise (sample_pipeline true) "raw" ("log" ∷ []) sample_disk full_disk torn_disk
      (io_error "no space left") poll_raises
