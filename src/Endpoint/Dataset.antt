-- ===== src/Endpoint/Dataset.antt =====
-- src/honeypot_ai/endpoint.py: windows that are written to a dataset and read again.
use mathlib.Core.Path.{ap₂}
use mathlib.Core.Bool.{true≢false}
use mathlib.Core.Option.{get_or}
use nsf_research_open_siem.Base.{
  ℕ, ℤ, pos, pos_part, ◌≡◌, ◌<◌, refl, sym, ap, ◌∙◌, String, true, false, List, [], ◌∷◌, some, ◌==◌,
  string_eq, contains, map, arith, inl, inr, Bool-cases,
}
use nsf_research_open_siem.Base.Dict.{Dict, lookup}
use nsf_research_open_siem.Base.Lists.{All}
use nsf_research_open_siem.Base.Result.{ok}
use nsf_research_open_siem.Models.{int, float, str, list, find, get}
use nsf_research_open_siem.Runtime.{Runtime}
use nsf_research_open_siem.Parsers.Values.{holds}
use nsf_research_open_siem.Endpoint.State.{feature_names}
use nsf_research_open_siem.Endpoint.Windows.{EndpointWindow, feature_vector}
use nsf_research_open_siem.Endpoint.Records.{
  DatasetTexts, text_items, number_fields, window_to_record, as_float, parse_datetime, item_texts,
  reasons_of, read_features, window_from_record, windows_to_records, read_items, read_windows,
}

-- What writing and reading back rest on: texts stand for themselves, `float` undoes `repr`, counts
-- are below 2 ^ 53, and `fromisoformat` undoes `isoformat`.
pub record DatasetLaws (py : Runtime) (texts : DatasetTexts py) : Type 0 where
  pub str_text : (s : String) → py.str_of (str s) ≡ s
  pub float_repr : (x : py.Float) → py.float_of (float (texts.repr x)) ≡ some x
  pub float_count : (n : ℕ) → py.float_of (int (pos n)) ≡ some (py.of_int (pos n))
  pub int_count : (n : ℕ) → n < 9_007_199_254_740_992 → py.float_int (py.of_int (pos n)) ≡ pos n
  pub iso : (t : ℤ) → texts.from_iso (texts.isoformat t) ≡ some t

same_text : (s t : String) → (s == t) ≡ true → s ≡ t
same_text s t h = ground arith

contained_more :
    (y : String) (xs zs : List String)
    → All (λ x. contains xs x ≡ true) zs
    → All (λ x. contains (y ∷ xs) x ≡ true) zs
contained_more y xs [] h = tt
contained_more y xs (z ∷ zs) h = (ground (arith, h.0), contained_more y xs zs h.1)

contained : (xs : List String) → All (λ x. contains xs x ≡ true) xs
contained [] = tt
contained (x ∷ xs) = (ground arith, contained_more x xs xs (contained xs))

module _ (py : Runtime) (texts : DatasetTexts py) (laws : DatasetLaws py texts) where
  open py use {Float}
  open laws use {str_text, float_repr, float_count, int_count, iso}

  as_float-repr : (x : Float) → as_float py texts (float (texts.repr x)) ≡ x
  unfolding as_float
  as_float-repr x = rw (float_repr x) refl

  as_float-count :
      (n : ℕ)
      → n < 9_007_199_254_740_992
      → pos_part (py.float_int (as_float py texts (int (pos n)))) ≡ n
  unfolding as_float
  as_float-count n h = rw (float_count n, int_count n h) refl

  get-number_fields :
      (names : List String) (d : Dict String Float) (n : String)
      → contains names n ≡ true
      → as_float py texts (get n (number_fields py texts (feature_vector py names d)))
        ≡ get_or (lookup n d) (py.of_int (pos 0))
  unfolding get find number_fields feature_vector
  get-number_fields [] d n h = absurd (true≢false (sym h))
  get-number_fields (m ∷ names) d n h = elim (Bool-cases (n == m)) [
    | inl t ↦ rw t (
        as_float-repr (get_or (lookup m d) (py.of_int (pos 0)))
        ∙ ap (λ k. get_or (lookup k d) (py.of_int (pos 0))) (sym (same_text n m t)))
    | inr f ↦ rw f (get-number_fields names d n (ground (arith, h)))
  ]

  read-number_fields :
      (names ns : List String) (d : Dict String Float)
      → All (λ n. contains names n ≡ true) ns
      → read_features py texts ns (number_fields py texts (feature_vector py names d))
        ≡ feature_vector py ns d
  unfolding read_features feature_vector
  read-number_fields names [] d h = refl
  read-number_fields names (n ∷ ns) d h =
      ap₂ (λ x xs. (n, x) ∷ xs) (get-number_fields names d n h.0)
        (read-number_fields names ns d h.1)

  items-text_items : (ts : List String) → item_texts py texts (text_items ts) ≡ ts
  items-text_items [] = refl
  items-text_items (t ∷ ts) = ap₂ (λ x xs. x ∷ xs) (str_text t) (items-text_items ts)

  -- A window with its features in the order of the names, zeros for the missing ones.
  abbrev pub normalised : EndpointWindow Float → EndpointWindow Float
  normalised w = record w { features = feature_vector py feature_names w.features }

  parse-isoformat : (t : ℤ) → parse_datetime py texts (py.str_of (str (texts.isoformat t))) ≡ ok t
  unfolding parse_datetime
  parse-isoformat t = rw (str_text (texts.isoformat t), iso t) refl

  pub window_from-window_to_record :
      (w : EndpointWindow Float)
      → (w.id == "") ≡ false
      → w.source_event_count < 9_007_199_254_740_992
      → window_from_record py texts (window_to_record py texts w) ≡ ok (normalised w)
  unfolding window_from_record window_to_record find get reasons_of holds
  window_from-window_to_record w h c =
      rw
        (
          parse-isoformat w.window_start,
          parse-isoformat w.window_end,
          h,
          str_text w.id,
          str_text w.endpoint,
          str_text w.role,
          str_text w.label,
          items-text_items w.label_reasons,
          as_float-count w.source_event_count c,
          read-number_fields feature_names feature_names w.features (contained feature_names),
        )
        refl

  abbrev pub AreWritable : List (EndpointWindow Float) → Type 0
  AreWritable ws =
      All (λ w. ((w.id == "") ≡ false) × (w.source_event_count < 9_007_199_254_740_992)) ws

  read_items-windows_to_records :
      (ws : List (EndpointWindow Float))
      → AreWritable ws
      → read_items py texts (windows_to_records py texts ws) ≡ ok (map normalised ws)
  unfolding read_items windows_to_records
  read_items-windows_to_records [] h = refl
  read_items-windows_to_records (w ∷ ws) h =
      rw (window_from-window_to_record w h.0.0 h.0.1, read_items-windows_to_records ws h.1) refl

  -- The records of windows with an id and fewer than 2 ^ 53 events read back as the same windows, with
  -- exactly the named features.
  pub read-windows_to_records :
      (ws : List (EndpointWindow Float))
      → AreWritable ws
      → read_windows py texts (list (windows_to_records py texts ws)) ≡ ok (map normalised ws)
  unfolding read_windows
  read-windows_to_records ws h = read_items-windows_to_records ws h
