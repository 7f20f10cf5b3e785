-- ===== src/Endpoint/Time.antt =====
-- src/honeypot_ai/endpoint.py, `_window_start` and `_window_end`. An event's time is in
-- microseconds; the bounds of a window are whole seconds.
use native.Mathlib.Nat.{div-add-mod, mod-lt}
use nsf_research_open_siem.Base.{
  ℕ, zero, suc, ◌+◌, ◌*◌, ◌/◌, ◌%◌, ◌≤◌, ◌<◌, ℤ, pos, negsuc, ◌+ℤ◌, ◌≡◌, refl, Option, none, some,
  arith, if◌then◌else◌,
}
use nsf_research_open_siem.Base.Numbers.{leb}
use nsf_research_open_siem.Base.Result.{Result, ok, raise}
use nsf_research_open_siem.Runtime.{Runtime}
use nsf_research_open_siem.Endpoint.Select.{WindowError, bad_window_seconds, bad_time}

-- -n
abbrev minus : ℕ → ℤ
minus zero = pos 0
minus (suc n) = negsuc n

-- `(epoch // w) * w`; `//` rounds down
unfoldable pub align : ℕ → ℤ → ℤ
align w (pos s) = pos (s / w * w)
align w (negsuc s) = minus (suc (s / w) * w)

-- A missing timestamp is taken for 1970.
abbrev pub or_epoch : Option ℤ → ℤ
or_epoch none = pos 0
or_epoch (some t) = t

-- `datetime.fromtimestamp(s, tz=timezone.utc)`, from the year 1 to 9999
unfoldable pub from_timestamp : ℤ → Result WindowError ℤ
from_timestamp (pos s) = if leb s 253_402_300_799 then ok (pos s) else raise bad_time
from_timestamp (negsuc s) = if leb s 62_135_596_799 then ok (negsuc s) else raise bad_time

-- The end of a window, before it is made a time; its start is a whole second.
unfoldable pub end_of : ℤ → ℤ → ℤ
unfolding ◌+ℤ◌
end_of start w = start +ℤ w

unfoldable pub window_end : ℤ → ℤ → Result WindowError ℤ
unfolding from_timestamp end_of
window_end start w = from_timestamp (end_of start w)

module _ (py : Runtime) where
  open py use {int_timestamp}

  unfoldable pub window_start : Option ℤ → ℤ → Result WindowError ℤ
  unfolding align from_timestamp
  window_start t (pos (suc w)) = from_timestamp (align (suc w) (int_timestamp (or_epoch t)))
  window_start t w = raise bad_window_seconds

align-le : (s w : ℕ) → s / suc w * suc w ≤ s
align-le s w = omega (arith, div-add-mod s (suc w))

remainder : (s w : ℕ) → s % suc w < suc w
remainder s w = mod-lt s (omega arith)

lt-align : (s w : ℕ) → s < s / suc w * suc w + suc w
lt-align s w = omega (arith, div-add-mod s (suc w), remainder s w)

pub from_timestamp-ok : (s : ℕ) → s ≤ 253_402_300_799 → from_timestamp (pos s) ≡ ok (pos s)
unfolding from_timestamp
from_timestamp-ok s h = ground (arith, h)

end_of-pos : (n m : ℕ) → end_of (pos n) (pos m) ≡ pos (n + m)
unfolding end_of ◌+ℤ◌
end_of-pos n m = ground arith

-- A window whose length keeps it before the year 10000 has a start and an end.
pub window_times :
    (py : Runtime) (t : Option ℤ) (s w : ℕ)
    → py.int_timestamp (or_epoch t) ≡ pos s
    → s + suc w ≤ 253_402_300_799
    → (n : ℕ) × (window_start py t (pos (suc w)) ≡ ok (pos n))
      × (window_end (pos n) (pos (suc w)) ≡ ok (pos (n + suc w)))
unfolding window_start window_end align
window_times py t s w e h =
    let n = s / suc w * suc w in
    (
      n,
      rw e (from_timestamp-ok n (omega (arith, align-le s w, h))),
      rw (end_of-pos n (suc w)) (from_timestamp-ok (n + suc w) (omega (arith, align-le s w, h))),
    )

-- A time from 1970 to 9999 whose whole seconds the double of `timestamp()` keeps lies in its window,
-- which begins at a multiple of the window's length.
pub window_start_holds :
    (py : Runtime) (us w : ℕ)
    → py.int_timestamp (pos us) ≡ pos (us / 1_000_000)
    → us / 1_000_000 ≤ 253_402_300_799
    → (s : ℕ) × (window_start py (some (pos us)) (pos (suc w)) ≡ ok (pos s))
      × (s * 1_000_000 ≤ us)
      × (us < (s + suc w) * 1_000_000)
      × ((k : ℕ) × (s ≡ k * suc w))
unfolding window_start align
window_start_holds py us w e h =
    let s = us / 1_000_000 in
    (
      s / suc w * suc w,
      rw e (from_timestamp-ok (s / suc w * suc w) (omega (arith, align-le s w, h))),
      omega (arith, align-le s w),
      omega (arith, lt-align s w),
      (s / suc w, refl),
    )
