-- ===== src/Parsers/Values.antt =====
-- src/honeypot_ai/parsers.py: the fields of a record, and the values made of them.
use Prim.Native.String.{len, slice}
use text.Mathlib.Text
use nsf_research_open_siem.Base.{
  ℕ, suc, zero, ◌+◌, ◌-◌, ℤ, pos, String, ◌<>◌, Bool, true, false, not, ◌&&◌, ◌||◌, List, [], ◌∷◌,
  Option, none, some, ◌==◌, string_eq, if◌then◌else◌,
}
use nsf_research_open_siem.Base.Numbers.{ltb}
use nsf_research_open_siem.Base.Dict.{Dict, insert}
use nsf_research_open_siem.Base.Text.{
  is_some, is_in, truthy, or_text, or_else, starts_with, starts_with_any, ends_with,
}
use nsf_research_open_siem.Models.{
  Value, null, bool, int, float, str, list, obj, nil, Fields, end, field, find, get, mapping,
}
use nsf_research_open_siem.Runtime.{Runtime}

-- What `datetime.fromisoformat` returns, with the clock time of a naive one read in UTC.
pub data Iso : Type 0 where
  aware : ℤ → Iso
  naive : ℤ → Iso

-- What the parsers take from Python's library. The number of a timestamp is taken to be one that
-- `fromtimestamp` accepts; for others it raises.
pub record Library : Type 0 where
  -- `datetime.fromisoformat(text)`, `none` for a ValueError
  pub from_iso : String → Option Iso
  -- `datetime.fromtimestamp(float(text))`, `none` for a ValueError
  pub from_text : String → Option ℤ
  pub from_number : Value → ℤ
  -- `s.isdigit()` and `" ".join(s.split())`
  pub is_digits : String → Bool
  pub squeeze : String → String

-- `key in record`
unfoldable pub has_field : String → Fields → Bool
unfolding find
has_field k fs = is_some (find k fs)

-- `_nested`
unfoldable pub nested : Value → List String → Value
unfolding get find
nested v [] = v
nested v (k ∷ ks) = nested (get k (mapping v)) ks

pieces : ℕ → String → Option ℕ → List String
pieces zero s o = s ∷ []
pieces (suc fuel) s none = s ∷ []
pieces (suc fuel) s (some i) =
    let t = slice s (i + 1) (len s) in slice s 0 i ∷ pieces fuel t (Text.find? t ".")

-- `key.split(".")`; there are no more dots than characters.
unfoldable pub split_dots : String → List String
unfolding pieces
split_dots s = pieces (len s) s (Text.find? s ".")

-- `_get_field`
unfoldable pub get_field : Fields → String → Value
unfolding has_field nested split_dots get is_in
get_field fs k =
    if has_field k fs
    then get k fs
    else if is_in "." k
    then nested (obj fs) (split_dots k)
    else get k fs

-- `value is not None and value != ""`
unfoldable pub is_given : Value → Bool
unfolding string_eq
is_given null = false
is_given (str s) = not (s == "")
is_given v = true

-- The value as a condition.
unfoldable pub holds : Value → Bool
unfolding string_eq
holds null = false
holds (bool b) = b
holds (int (pos zero)) = false
holds (float s) = not (s == "0.0" || s == "-0.0")
holds (str s) = not (s == "")
holds (list nil) = false
holds (obj end) = false
holds v = true

-- `a or b`
unfoldable pub or_value : Value → Value → Value
unfolding holds
or_value a b = if holds a then a else b

unfoldable pub first_value : Fields → List String → Value
unfolding get_field is_given
first_value fs [] = null
first_value fs (k ∷ ks) = if is_given (get_field fs k) then get_field fs k else first_value fs ks

-- `path`, with a slash before it
unfoldable pub rooted : String → String
unfolding starts_with
rooted path = if starts_with path "/" then path else "/" <> path

unfoldable pub build_http_url : Option String → Option String → Option String
unfolding starts_with_any rooted
build_http_url host path =
    if truthy path
    then if starts_with_any (or_text path "") ("http://" ∷ "https://" ∷ [])
      then path
      else if truthy host
      then some ("http://" <> or_text host "" <> rooted (or_text path ""))
      else path
    else none

abbrev pub hash_field_aliases : Dict String (List String)
hash_field_aliases =
    ("md5", "md5" ∷ "md5_hash" ∷ "hash.md5" ∷ "file.hash.md5" ∷ "fileinfo.md5" ∷ [])
    ∷ ("sha1", "sha1" ∷ "sha1_hash" ∷ "hash.sha1" ∷ "file.hash.sha1" ∷ "fileinfo.sha1" ∷ [])
    ∷ (
      "sha256",
      "sha256" ∷ "sha256_hash" ∷ "hash.sha256" ∷ "file.hash.sha256" ∷ "fileinfo.sha256" ∷ [],
    )
    ∷ []

-- `hashes.update(more)`
unfoldable pub insert_all : Dict String String → Dict String String → Dict String String
unfolding insert string_eq
insert_all [] d = d
insert_all ((k, v) ∷ more) d = insert_all more (insert k v d)

module _ (py : Runtime) where
  open py use {lower, strip, int_of, str_of}

  abbrev text_of : String → Option String
  text_of s = if s == "" then none else some s

  unfoldable pub as_str : Value → Option String
  unfolding string_eq
  as_str null = none
  as_str (list vs) = none
  as_str (obj fs) = none
  as_str v = text_of (str_of v)

  unfoldable pub as_int : Value → Option ℤ
  unfolding is_given
  as_int v = if is_given v then int_of v else none

  unfoldable pub first_string : Fields → List String → Option String
  unfolding get_field as_str
  first_string fs [] = none
  first_string fs (k ∷ ks) = or_else (as_str (get_field fs k)) (first_string fs ks)

  unfoldable pub http_url : Fields → Option String
  unfolding build_http_url as_str get
  http_url http = build_http_url (as_str (get "hostname" http)) (as_str (get "url" http))

  abbrev set_hash : String → Option String → Dict String String → Dict String String
  set_hash name none d = d
  set_hash name (some v) d = insert name (lower v) d

  -- The loop over the aliases.
  unfoldable pub own_hashes :
      Dict String (List String) → Fields → Dict String String → Dict String String
  unfolding first_string insert string_eq
  own_hashes [] fs d = d
  own_hashes ((name, ks) ∷ more) fs d = own_hashes more fs (set_hash name (first_string fs ks) d)

  -- The loop over the items of the record; a record inside is searched by the same function.
  unfoldable pub nested_hashes : Fields → Dict String String → Dict String String
  unfolding own_hashes insert_all
  nested_hashes end d = d
  nested_hashes (field k (obj gs) fs) d =
      nested_hashes fs (insert_all (nested_hashes gs (own_hashes hash_field_aliases gs [])) d)
  nested_hashes (field k v fs) d = nested_hashes fs d

  unfoldable pub extract_hashes : Fields → Dict String String
  unfolding nested_hashes own_hashes
  extract_hashes fs = nested_hashes fs (own_hashes hash_field_aliases fs [])

  module _ (lib : Library) where
    open lib use {from_iso, from_text, from_number, is_digits}

    -- `text[:-1] + "+00:00"` for a final Z
    unfoldable pub zone_of_z : String → String
    unfolding ends_with
    zone_of_z t = if ends_with t "Z" then slice t 0 (len t - 1) <> "+00:00" else t

    -- `+0100` becomes `+01:00`.
    unfoldable pub zone_colon : String → String
    unfolding is_in string_eq
    zone_colon t =
        let n = len t in
        if ltb 5 n
          && is_in (slice t (n - 5) (n - 4)) "+-"
          && is_digits (slice t (n - 2) n)
          && not (slice t (n - 3) (n - 2) == ":")
        then slice t 0 (n - 2) <> ":" <> slice t (n - 2) n
        else t

    abbrev in_utc : Option Iso → Option ℤ → Option ℤ
    in_utc none t = t
    in_utc (some (aware t)) u = some t
    in_utc (some (naive t)) u = some t

    unfoldable pub parse_timestamp : Value → Option ℤ
    unfolding zone_of_z zone_colon string_eq
    parse_timestamp (bool b) = some (from_number (bool b))
    parse_timestamp (int n) = some (from_number (int n))
    parse_timestamp (float x) = some (from_number (float x))
    parse_timestamp (str s) =
        let text = strip s in
        let zoned = zone_colon (zone_of_z text) in
        if text == "" then none else in_utc (from_iso zoned) (from_text zoned)
    parse_timestamp v = none
