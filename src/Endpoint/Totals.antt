-- ===== src/Endpoint/Totals.antt =====
-- src/honeypot_ai/endpoint.py: the number of events in the windows of a log.
use nsf_research_open_siem.Base.{
  ℕ, suc, ◌+◌, ◌≤◌, true, ℤ, pos, ◌≡◌, refl, String, List, [], ◌∷◌, Option, none, some, map, sum,
  string_eq, arith,
}
use nsf_research_open_siem.Base.Dict.{length}
use nsf_research_open_siem.Base.Lists.{All}
use nsf_research_open_siem.Base.Result.{Result, ok}
use nsf_research_open_siem.Models.{Event}
use nsf_research_open_siem.Runtime.{Runtime, Addresses}
use nsf_research_open_siem.Features.{float_from_raw}
use nsf_research_open_siem.Endpoint.Select.{WindowError, Selected, select_event_endpoint}
use nsf_research_open_siem.Endpoint.Time.{or_epoch, window_times}
use nsf_research_open_siem.Endpoint.Windows.{window_key_eq, Placed, place, place_all, cons_placed}

abbrev pub picked : Selected → ℕ
picked none = 0
picked (some s) = 1

-- How many elements have an endpoint.
abbrev pub chosen : {A : Type 0} → (A → Selected) → List A → ℕ
chosen select xs = sum (map (λ x. picked (select x)) xs)

module _ {A : Type 0} (py : Runtime) (select : A → Selected) (time : A → Option ℤ)
    (numbers : A → String → Result WindowError Unit) (w : ℕ) where
  -- The second of an element's time since 1970 leaves room for a window before the year 10000, and
  -- its numbers raise nothing.
  abbrev pub Fits : A → Type 0
  Fits x =
      (s : ℕ) × (py.int_timestamp (or_epoch (time x)) ≡ pos s)
      × (s + suc w ≤ 253_402_300_799)
      × ((endpoint : String) → numbers x endpoint ≡ ok tt)

  place-some :
      (x : A) (r : Selected)
      → Fits x
      → (p : Option (Placed A)) × (place py select time numbers (pos (suc w)) x r ≡ ok p)
        × ((ps : List (Placed A))
            → length (cons_placed py select time numbers (pos (suc w)) p ps) ≡ picked r + length ps)
  place-some x none h = (none, refl, λ ps. omega arith)
  place-some x (some (endpoint, role)) (s, e, l, fine) =
      let (n, start, end) = window_times py (time x) s w e l in
      (
        some (record { endpoint = endpoint; role = role; start = pos n }, x),
        rw (start, end, fine endpoint) refl,
        λ ps. omega arith,
      )

  -- Elements that fit are placed, each selected one once.
  pub place_all_lem :
      (xs : List A)
      → All Fits xs
      → (ps : List (Placed A)) × (place_all py select time numbers (pos (suc w)) xs ≡ ok ps)
        × (length ps ≡ chosen select xs)
  unfolding place_all sum
  place_all_lem [] h = ([], refl, refl)
  place_all_lem (x ∷ xs) (h, hs) =
      let (ps, e, l) = place_all_lem xs hs in
      let (p, f, k) = place-some x (select x) h in
      (
        cons_placed py select time numbers (pos (suc w)) p ps,
        rw (f, e) refl,
        omega (arith, k ps, l),
      )

module _ (py : Runtime) (ip : Addresses) where
  open py use {Float}
  open ip use {Network}

  abbrev pub selected : List Network → Event → Selected
  selected ns e = select_event_endpoint ip py e ns

  -- An event whose window ends before the year 10000 and whose byte counts are finite.
  abbrev pub Countable : ℕ → Event → Type 0
  Countable w e =
      (s : ℕ) × (py.int_timestamp (or_epoch e.timestamp) ≡ pos s)
      × (s + suc w ≤ 253_402_300_799)
      × (py.is_finite (float_from_raw py e ("orig_bytes" ∷ "bytes_toserver" ∷ [])) ≡ true)
      × (py.is_finite (float_from_raw py e ("resp_bytes" ∷ "bytes_toclient" ∷ [])) ≡ true)
