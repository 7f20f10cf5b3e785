-- ===== src/Realtime/Read.antt =====
-- src/honeypot_ai/realtime.py, `_read_new_complete_lines`. A file that does not exist is `none`.
use nsf_research_open_siem.Base.{
  ℕ, suc, ◌+◌, ℤ, pos, negsuc, String, Bool, true, false, List, [], ◌∷◌, Option, none, some, ◌==◌,
  nat_eq, if◌then◌else◌,
}
use nsf_research_open_siem.Base.Numbers.{ltb}
use nsf_research_open_siem.Base.Dict.{length}
use nsf_research_open_siem.Base.Bytes.{take, drop}
use nsf_research_open_siem.Base.Result.{Result, ok, raise}

-- What a poll may raise. `rejected` is the text of the error that the analysis raises, and `io_error`
-- that of an `OSError`.
pub data StreamError : Type 0 where
  bad_format : StreamError
  negative_seek : StreamError
  rejected : String → StreamError
  io_error : String → StreamError

abbrev later : Option ℕ → Bool → Option ℕ
later (some i) here = some (suc i)
later none true = some 0
later none false = none

-- `data.rfind(b"\n")`, with `none` for -1
unfoldable pub rfind_newline : List ℕ → Option ℕ
unfolding nat_eq
rfind_newline [] = none
rfind_newline (b ∷ bs) = later (rfind_newline bs) (b == 10)

-- `data.endswith(b"\n")`
unfoldable pub ends_newline : List ℕ → Bool
unfolding nat_eq
ends_newline [] = false
ends_newline (b ∷ []) = b == 10
ends_newline (b ∷ c ∷ bs) = ends_newline (c ∷ bs)

-- A file that has become shorter is read from its start.
abbrev pub from_offset : ℕ → ℕ → ℕ
from_offset size offset = if ltb size offset then 0 else offset

-- `decode("utf-8", errors="replace").splitlines()`
module _ (decode_lines : List ℕ → List String) where
  abbrev up_to : Option ℕ → List ℕ → ℕ → List String × ℤ
  up_to none bs offset = ([], pos offset)
  up_to (some i) bs offset = (decode_lines (take (i + 1) bs), pos (offset + i + 1))

  -- The part of the file from `offset` on, which is not empty.
  unfoldable pub complete_lines : List ℕ → ℕ → List String × ℤ
  unfolding take ends_newline rfind_newline
  complete_lines bs offset =
      if ends_newline bs
      then (decode_lines bs, pos (offset + length bs))
      else up_to (rfind_newline bs) bs offset

  unfoldable pub read_new_complete_lines :
      Option (List ℕ) → ℤ → Result StreamError (List String × ℤ)
  unfolding nat_eq drop complete_lines
  read_new_complete_lines none offset = ok ([], offset)
  read_new_complete_lines (some bs) (negsuc n) = raise negative_seek
  read_new_complete_lines (some bs) (pos offset) =
      let o = from_offset (length bs) offset in
      ok (if length bs == o then ([], pos o) else complete_lines (drop o bs) o)
