-- ===== src/Realtime/Delivery.antt =====
-- src/honeypot_ai/realtime.py: what the output holds of a growing file.
use text.Mathlib.TextLemmas.{append_assoc as text_assoc, append-nil as text_nil}
use Prim.Native.String.append
use mathlib.Core.Path.{subst}
use mathlib.Core.Option.{get_or, none-ne-some}
use mathlib.Core.List.{append-nil, append_assoc}
use nsf_research_open_siem.Base.{
  ℕ, pos, ◌≡◌, refl, sym, ap, ◌∙◌, String, ◌<>◌, true, false, List, [], ◌∷◌, ◌++◌, Option, none,
  some, string_eq, arith,
}
use nsf_research_open_siem.Base.Dict.{length, lookup}
use nsf_research_open_siem.Base.Lists.{All}
use nsf_research_open_siem.Base.Bytes.{drop, drop_all, take, take_all}
use nsf_research_open_siem.Base.Result.{ok}
use nsf_research_open_siem.Realtime.Read.{ends_newline}
use nsf_research_open_siem.Realtime.Polls.{complete}
use nsf_research_open_siem.Realtime.Stream.{
  Disk, Pipeline, StreamResult, no_faults, appended, text_of, with_newline, payload_of,
  show_preview, stream_once,
}
use nsf_research_open_siem.Realtime.System.{
  Log, opened, wrote, delivered, not_noted, torn, sent_back, Run, Followed,
}
use nsf_research_open_siem.Realtime.Followed.{content, next_offsets, gather_new, whole, some_inj}
use nsf_research_open_siem.Realtime.Refinement.{Run-Refines-Log}

abbrev pub Occurs : String → Option String → Type 0
Occurs s out = (before : String) × (after : String) × (out ≡ some (before <> (s <> after)))

Occurs-more :
    (s x : String) (out : Option String) → Occurs s out → Occurs s (some (text_of out <> x))
Occurs-more s x none (b, a, h) = absurd (none-ne-some _ h)
Occurs-more s x (some t) (b, a, h) = (
  b,
  a <> x,
  ap some (
      ap (λ u. u <> x) (some_inj t (b <> (s <> a)) h)
      ∙ text_assoc b (s <> a) x
      ∙ ap (◌<>◌ b) (text_assoc s a x)),
)

abbrev pub concat : List (List String) → List String
concat [] = []
concat (b ∷ bs) = b ++ concat bs

concat-snoc : (bs : List (List String)) (b : List String) → concat (bs ++ b ∷ []) ≡ concat bs ++ b
concat-snoc [] b = append-nil b
concat-snoc (c ∷ bs) b = ap (◌++◌ c) (concat-snoc bs b) ∙ sym (append_assoc c (concat bs) b)

module _ (via : Pipeline) where
  -- The analysis accepts the lines, and its payload stands in the output.
  abbrev pub Shown : Option String → List String → Type 0
  Shown out batch =
      (n : ℕ) × (payload : String) × (via.analyze batch ≡ ok (n, payload))
      × Occurs (with_newline via payload) out

  abbrev pub AllShown : Option String → List String → Type 0
  AllShown out lines =
      (batches : List (List String)) × (concat batches ≡ lines) × All (Shown out) batches

  Shown-more :
      (x : String) (out : Option String) (batches : List (List String))
      → All (Shown out) batches
      → All (Shown (some (text_of out <> x))) batches
  Shown-more x out [] h = tt
  Shown-more x out (b ∷ bs) (h, hs) =
      ((h.0, h.1, h.2, Occurs-more (with_newline via h.1) x out h.3), Shown-more x out bs hs)

  nothing_before : (t : String) → "" <> t ≡ t
  nothing_before t = append.nil t

  appended-text :
      (out : Option String) (t : String)
      → appended via out t ≡ some (text_of out <> with_newline via t)
  appended-text none t = ap some (sym (nothing_before (with_newline via t)))
  appended-text (some s) t = refl

  snoc-Shown :
      (out : Option String) (batches : List (List String)) (b : List String)
      → All (Shown out) batches
      → Shown out b
      → All (Shown out) (batches ++ b ∷ [])
  snoc-Shown out [] b h k = (k, tt)
  snoc-Shown out (c ∷ bs) b h k = (h.0, snoc-Shown out bs b h.1 k)

  Log-Shown :
      {written behind : List String} {out : Option String}
      → Log via written behind out
      → AllShown out behind
  Log-Shown opened = ([], refl, tt)
  Log-Shown (wrote l more) = Log-Shown l
  Log-Shown (sent_back l) = ([], refl, tt)
  Log-Shown (torn {written} {behind} {out} l part) =
      let (bs, e, h) = Log-Shown l in (bs, e, Shown-more part out bs h)
  Log-Shown (not_noted {written} {behind} {out} l batch n t w a) =
      let (bs, e, h) = Log-Shown l in
      rw (appended-text out t) (bs, e, Shown-more (with_newline via t) out bs h)
  Log-Shown (delivered {written} {behind} {out} l batch n t w a) =
      let (bs, e, h) = Log-Shown l in
      let now = with_newline via t in
      rw (appended-text out t) (
        bs ++ batch ∷ [],
        concat-snoc bs batch ∙ ap (λ x. x ++ batch) e,
        snoc-Shown (some (text_of out <> now)) bs batch (Shown-more now out bs h)
            (n, t, a, (text_of out, "", ap some (ap (◌<>◌ (text_of out)) (sym (text_nil now))))),
      )

module _ (via : Pipeline) (p : String) (z : via.decode_lines [] ≡ [])
    (splits : (cs ds : List ℕ)
      → ends_newline cs ≡ true
      → via.decode_lines (cs ++ ds) ≡ via.decode_lines cs ++ via.decode_lines ds) where
  open via use {decode_lines, analyze}

  -- On every run of a writer and of polls, which may raise in the analysis or because the system
  -- refuses a write, the lines before the saved offset stand in the output, in batches whose payload
  -- the output holds whole, and with the complete lines after the offset they are all complete lines
  -- of the file: no line is passed over.
  pub delivered-pending :
      {d : Disk}
      → Run via p d
      → (bs : List ℕ) → d.files p ≡ some bs
      → (o : ℕ) × (get_or (lookup p d.offsets) (pos 0) ≡ pos o)
        × AllShown via d.output (decode_lines (take o bs))
        × (decode_lines (take o bs) ++ decode_lines (complete (drop o bs))
            ≡ decode_lines (complete bs))
  delivered-pending {d} run bs h =
      let (f, l) = Run-Refines-Log via p z splits run in
      let same = content p f h ∙ f.split in
      (
        length f.passed,
        f.offset,
        rw (same, take_all f.passed f.ahead) (Log-Shown via l),
        rw (same, take_all f.passed f.ahead, drop_all f.passed f.ahead)
            (whole p via z splits f ∙ ap (λ x. decode_lines (complete x)) f.split),
      )

  -- What a poll without faults returns, and what its output holds.
  abbrev Returned : Disk → List String → Type 0
  Returned d lines =
      (d' : Disk) × (r : StreamResult) × (stream_once via no_faults "raw" false (p ∷ []) d
        ≡ (ok r, d'))
      × AllShown via d'.output lines

  idle :
      {d : Disk} (f : Followed p d)
      → decode_lines (complete f.ahead) ≡ []
      → (r : StreamResult) × (stream_once via no_faults "raw" false (p ∷ []) d
          ≡ (ok r, record d { offsets = next_offsets p f }))
  unfolding stream_once show_preview
  idle {d} f n =
      rw (gather_new p via z splits f, n)
        (record { raw_lines = 0; parsed_events = 0; alert_events = 0 }, ground arith)

  returned :
      {d : Disk} (f : Followed p d) (ls : List String) (n : ℕ) (t : String)
      → decode_lines (complete f.ahead) ≡ ls
      → analyze ls ≡ ok (n, t)
      → Log via (decode_lines (complete f.bytes)) (decode_lines f.passed) d.output
      → Returned d (decode_lines f.passed ++ ls)
  unfolding stream_once show_preview payload_of
  returned {d} f [] n t new a l =
      let (r, e) = idle f new in
      (
        record d { offsets = next_offsets p f },
        r,
        e,
        rw (append-nil (decode_lines f.passed)) (Log-Shown via l),
      )
  returned {d} f (x ∷ ls) n t new a l =
      let shown = Log-Shown via (
        delivered l (x ∷ ls) n t
          (ap (◌++◌ (decode_lines f.passed)) (sym new) ∙ whole p via z splits f) a) in
      rw (gather_new p via z splits f, new, a) (_, _, refl, shown)

  -- After any run, if the analysis accepts the complete lines after the saved offset, a poll that the
  -- system does not disturb returns, and then every complete line of the file stands in the output, in
  -- a batch whose payload the output holds whole.
  pub poll_delivers :
      {d : Disk}
      → Run via p d
      → (bs : List ℕ) → d.files p ≡ some bs
      → ((o : ℕ)
          → get_or (lookup p d.offsets) (pos 0) ≡ pos o
          → (n : ℕ) × (t : String) × (analyze (decode_lines (complete (drop o bs))) ≡ ok (n, t)))
      → (d' : Disk) × (r : StreamResult) × (stream_once via no_faults "raw" false (p ∷ []) d
          ≡ (ok r, d'))
        × AllShown via d'.output (decode_lines (complete bs))
  poll_delivers {d} run bs h accepts =
      let (f, l) = Run-Refines-Log via p z splits run in
      let same = content p f h in
      let (n, t, a) = accepts (length f.passed) f.offset in
      let ahead : drop (length f.passed) bs ≡ f.ahead =
        ap (drop (length f.passed)) (same ∙ f.split) ∙ drop_all f.passed f.ahead in
      subst (Returned d) (whole p via z splits f ∙ ap (λ x. decode_lines (complete x)) (sym same)) (
        returned f (decode_lines (complete f.ahead)) n t refl
          (ap (λ x. analyze (decode_lines (complete x))) (sym ahead) ∙ a) l)
