-- ===== src/Realtime/Followed.antt =====
-- src/honeypot_ai/realtime.py: where the saved offset stands in a growing file.
use mathlib.Core.Option.{get_or}
use mathlib.Core.List.{append-nil, append_assoc}
use nsf_research_open_siem.Base.{
  ℕ, ◌+◌, pos, ℤ, ◌≡◌, refl, sym, ap, ◌∙◌, String, true, List, [], ◌∷◌, ◌++◌, Option, some, ◌==◌,
  string_eq, arith,
}
use nsf_research_open_siem.Base.Dict.{Dict, length, length-append, lookup, insert, lookup-insert}
use nsf_research_open_siem.Base.Bytes.{drop_all}
use nsf_research_open_siem.Base.Result.{ok}
use nsf_research_open_siem.Realtime.Read.{ends_newline}
use nsf_research_open_siem.Realtime.Polls.{
  complete, Closed, rest, complete-Closed, complete-rest, complete-append, decode_lines-Closed,
  read_new_complete_lines_lem,
}
use nsf_research_open_siem.Realtime.Stream.{Disk, Pipeline, gather}
use nsf_research_open_siem.Realtime.System.{append_to, Followed}

pub Closed-append : (cs ds : List ℕ) → Closed cs → Closed ds → Closed (cs ++ ds)
unfolding ends_newline
Closed-append [] ds h k = k
Closed-append (c ∷ []) [] h k = h
Closed-append (c ∷ []) (d ∷ ds) h k = k
Closed-append (c ∷ b ∷ cs) ds h k = Closed-append (b ∷ cs) ds h k

pub same_key : (p : String) → (p == p) ≡ true
same_key p = ground arith

pub some_inj {ℓ} : {A : Type ℓ} (a b : A) → some a ≡ some b → a ≡ b
some_inj a b h = cc h

abbrev pub no_offsets : Dict String ℤ
no_offsets = []

module _ (p : String) where
  -- Only the output has changed.
  abbrev pub stay :
      {d : Disk} → Followed p d → (out : Option String) → Followed p (record d { output = out })
  stay f out = record {
    bytes = f.bytes;
    passed = f.passed;
    ahead = f.ahead;
    split = f.split;
    file = f.file;
    offset = f.offset;
    closed = f.closed;
  }

  pub at_start : get_or (lookup p (no_offsets)) (pos 0) ≡ pos 0
  unfolding lookup
  at_start = refl

  -- The state file is torn.
  abbrev pub back :
      {d : Disk}
      → Followed p d
      → (out : Option String) → Followed p (record d { output = out; offsets = [] })
  back f out = record {
    bytes = f.bytes;
    passed = [];
    ahead = f.bytes;
    split = refl;
    file = f.file;
    offset = at_start;
    closed = tt;
  }

  -- The offset behind the complete lines that are ahead.
  abbrev pub next_offsets : {d : Disk} → Followed p d → Dict String ℤ
  next_offsets {d} f = insert p (pos (length f.passed + length (complete f.ahead))) d.offsets

  abbrev pub forward :
      {d : Disk} (f : Followed p d) (out : Option String)
      → Followed p (record d { output = out; offsets = next_offsets f })
  forward {d} f out = record {
    bytes = f.bytes;
    passed = f.passed ++ complete f.ahead;
    ahead = rest f.ahead;
    split =
        f.split
        ∙ ap (◌++◌ f.passed) (sym (complete-rest f.ahead))
        ∙ sym (append_assoc f.passed (complete f.ahead) (rest f.ahead));
    file = f.file;
    offset =
        rw
          (
            lookup-insert p p (pos (length f.passed + length (complete f.ahead))) d.offsets,
            same_key p,
            length-append f.passed (complete f.ahead),
          )
          refl;
    closed = Closed-append f.passed (complete f.ahead) f.closed (complete-Closed f.ahead);
  }

  pub content : {d : Disk} {bs : List ℕ} (f : Followed p d) → d.files p ≡ some bs → bs ≡ f.bytes
  content {d} {bs} f h = some_inj bs f.bytes (sym h ∙ f.file)

  abbrev pub grown :
      {d : Disk} {bs : List ℕ}
      → Followed p d
      → d.files p ≡ some bs
      → (new : List ℕ) → Followed p (append_to p bs new d)
  grown {d} {bs} f h new = record {
    bytes = f.bytes ++ new;
    passed = f.passed;
    ahead = f.ahead ++ new;
    split = ap (λ x. x ++ new) f.split ∙ append_assoc f.passed f.ahead new;
    file = rw (same_key p, content f h) refl;
    offset = f.offset;
    closed = f.closed;
  }

  module _ (via : Pipeline) (z : via.decode_lines [] ≡ [])
      (splits : (cs ds : List ℕ)
        → ends_newline cs ≡ true
        → via.decode_lines (cs ++ ds) ≡ via.decode_lines cs ++ via.decode_lines ds) where
    open via use {decode_lines}

    pub gather_new :
        {d : Disk} (f : Followed p d)
        → gather via d.files d.offsets (p ∷ []) d.offsets
          ≡ ok (decode_lines (complete f.ahead), next_offsets f)
    unfolding gather
    gather_new {d} f =
        rw
          (
            f.file,
            f.split,
            f.offset,
            read_new_complete_lines_lem decode_lines (f.passed ++ f.ahead) (length f.passed) z
                (omega (arith, length-append f.passed f.ahead)),
            drop_all f.passed f.ahead,
            append-nil (decode_lines (complete f.ahead)),
          )
          refl

    -- The lines behind the offset and the complete lines ahead are those of the file.
    pub whole :
        {d : Disk} (f : Followed p d)
        → decode_lines f.passed ++ decode_lines (complete f.ahead) ≡ decode_lines (complete f.bytes)
    whole f =
        sym (decode_lines-Closed decode_lines splits z f.passed (complete f.ahead) f.closed)
        ∙ ap decode_lines (sym (complete-append f.passed f.ahead f.closed))
        ∙ ap (λ x. decode_lines (complete x)) (sym f.split)

    pub passed_on :
        {d : Disk} (f : Followed p d)
        → decode_lines (f.passed ++ complete f.ahead)
          ≡ decode_lines f.passed ++ decode_lines (complete f.ahead)
    passed_on f = decode_lines-Closed decode_lines splits z f.passed (complete f.ahead) f.closed

    pub written_more :
        (bs new : List ℕ)
        → decode_lines (complete (bs ++ new))
          ≡ decode_lines (complete bs) ++ decode_lines (complete (rest bs ++ new))
    written_more bs new =
        ap decode_lines (
          ap (λ x. complete (x ++ new)) (sym (complete-rest bs))
          ∙ ap complete (append_assoc (complete bs) (rest bs) new)
          ∙ complete-append (complete bs) (rest bs ++ new) (complete-Closed bs))
        ∙ decode_lines-Closed decode_lines splits z (complete bs) (complete (rest bs ++ new))
            (complete-Closed bs)
