-- ===== src/Base/Text.antt =====
-- The string methods that the program calls, on native texts.
use Prim.Native.Nat.{ℕ, zero, suc, ◌+◌, ◌-◌, ◌/◌, ◌%◌}
use Prim.Native.String.{String, ◌++◌, len, slice}
use mathlib.Core.Bool.{Bool, true, false, ◌||◌}
use mathlib.Core.Option.{Option, none, some}
use mathlib.Core.List.{List, [], ◌∷◌}
use text.Mathlib.Text
use nsf_research_open_siem.Base.Equality.{◌==◌, if◌then◌else◌, string_eq}
use nsf_research_open_siem.Base.Numbers.{ltb, leb}

abbrev pub is_some {ℓ} : {A : Type ℓ} → Option A → Bool
is_some none = false
is_some (some a) = true

-- `t in s`
unfoldable pub is_in : String → String → Bool
is_in t s = is_some (Text.find? s t)

-- `any(t in s for t in ts)`
unfoldable pub any_in : List String → String → Bool
unfolding is_in
any_in [] s = false
any_in (t ∷ ts) s = is_in t s || any_in ts s

-- `s.startswith(t)` and `s.endswith(t)`
unfoldable pub starts_with : String → String → Bool
starts_with s t = Text.starts_with s t

unfoldable pub ends_with : String → String → Bool
unfolding string_eq
ends_with s t = if leb (len t) (len s) then slice s (len s - len t) (len s) == t else false

-- `s.startswith(ts)` for a tuple
unfoldable pub starts_with_any : String → List String → Bool
unfolding starts_with
starts_with_any s [] = false
starts_with_any s (t ∷ ts) = starts_with s t || starts_with_any s ts

unfoldable pub ends_with_any : String → List String → Bool
unfolding ends_with
ends_with_any s [] = false
ends_with_any s (t ∷ ts) = ends_with s t || ends_with_any s ts

-- A text, or `None`, as a condition: `None` and the empty text are false.
abbrev pub truthy : Option String → Bool
truthy none = false
truthy (some s) = if s == "" then false else true

-- `s or d`
abbrev pub or_text : Option String → String → String
or_text none d = d
or_text (some s) d = if s == "" then d else s

-- `s or t` where both may be `None`
abbrev pub or_else : Option String → Option String → Option String
or_else none t = t
or_else (some s) t = if s == "" then t else some s

digit : ℕ → String
digit n = slice "0123456789" n (n + 1)

decimal : ℕ → ℕ → String
decimal zero n = ""
decimal (suc fuel) n =
    let more = decimal fuel (n / 10) ++ digit (n % 10) in if ltb n 10 then digit n else more

-- `str(n)`; a number has no more digits than `n + 1`.
unfoldable pub show : ℕ → String
unfolding digit decimal
show n = decimal (suc n) n
