-- ===== src/Export/Cdb.antt =====
-- src/honeypot_ai/misp.py, `misp_attributes_to_wazuh_cdb`: attributes of MISP as rows of four lists.
use Prim.Native.String.{compare}
use Prim.Native.Nat.{Ordering}
use mathlib.Core.List.{map}
use nsf_research_open_siem.Base.{
  String, ◌<>◌, Bool, true, false, not, ◌&&◌, ◌||◌, List, [], ◌∷◌, ◌++◌, Option, none, some, ◌==◌,
  string_eq, contains, if◌then◌else◌,
}
use nsf_research_open_siem.Base.Dict.{Dict}
use nsf_research_open_siem.Base.Sort.{sorted}
use nsf_research_open_siem.Base.Text.{is_in}
use nsf_research_open_siem.Base.Result.{Result, ok, raise, ◌>>=◌}
use nsf_research_open_siem.Models.{Value, str, Fields, find, get}
use nsf_research_open_siem.Runtime.{Runtime}
use nsf_research_open_siem.Parsers.Values.{holds, or_value}

-- `CDB_LISTS`
abbrev pub cdb_lists : Dict String (List String)
cdb_lists =
    ("misp-ip", "ip-src" ∷ "ip-dst" ∷ [])
    ∷ ("misp-domain", "domain" ∷ [])
    ∷ ("misp-url", "url" ∷ [])
    ∷ ("misp-hash", "md5" ∷ "sha1" ∷ "sha256" ∷ [])
    ∷ []

abbrev pub name_from : Dict String (List String) → String → Option String
name_from [] t = none
name_from ((name, types) ∷ d) t = if contains types t then some name else name_from d t

unfoldable pub list_name : String → Option String
unfolding string_eq
list_name t = name_from cdb_lists t

-- What has been seen of one list, and its rows.
pub record CdbList : Type 0 where
  pub name : String
  pub seen : List String
  pub rows : List String

abbrev pub is_hash_type : String → Bool
is_hash_type t = contains ("md5" ∷ "sha1" ∷ "sha256" ∷ []) t

abbrev pub is_multiline : String → Bool
is_multiline s = is_in "\n" s || is_in "\r" s

-- `attribute.get(key, True)` as a condition
abbrev flag : Option Value → Bool
flag none = true
flag (some v) = holds v

abbrev pub row_before : String → String → Bool
row_before a b = elim (compare a b) [ Ordering.gt ↦ false | _ ↦ true ]

-- One more row in the list of that name.
unfoldable pub add_cdb_row : String → String → String → List CdbList → List CdbList
unfolding string_eq
add_cdb_row name key row [] = []
add_cdb_row name key row (l ∷ ls) =
    if l.name == name
    then (if contains l.seen key
        then l ∷ ls
        else record l { seen = l.seen ++ key ∷ []; rows = l.rows ++ row ∷ [] } ∷ ls)
    else l ∷ add_cdb_row name key row ls

abbrev pub cdb_row : String → String → String → String
cdb_row key t reference = key <> ":misp:" <> t <> ":" <> reference

unfoldable pub place_row :
    Option String → Option String → String → String → List CdbList → List CdbList
unfolding add_cdb_row
place_row none k t reference ls = ls
place_row (some name) none t reference ls = ls
place_row (some name) (some key) t reference ls = add_cdb_row name key (cdb_row key t reference) ls

abbrev pub sorted_rows : CdbList → String × List String
sorted_rows l = (l.name, sorted row_before l.rows)

abbrev pub sorted_lists : Result String (List CdbList) → Result String (Dict String (List String))
sorted_lists (raise error) = raise error
sorted_lists (ok ls) = ok (map sorted_rows ls)

abbrev pub empty_lists : List CdbList
empty_lists = map (λ d. record { name = d.0; seen = []; rows = [] }) cdb_lists

unfoldable pub plain_key : String → String → Option String
unfolding is_in string_eq
plain_key t value = if is_in ":" value && not (is_hash_type t) then none else some value

unfoldable pub url_key : String → Result String String → Result String (Option String)
unfolding is_in string_eq plain_key
url_key value (raise error) = raise error
url_key value (ok s) = ok (if not (s == "") || is_in ":" value then none else plain_key "url" value)

-- `urlparse(value).scheme`, which raises `ValueError` for an unclosed bracket, and
-- `value.replace(":", "_")`
module _ (py : Runtime) (scheme : String → Result String String)
    (underscored : String → String) where
  open py use {str_of, strip}

  -- `str(attribute.get(key) or "")`
  abbrev pub text_of : String → Fields → String
  text_of k fs = str_of (or_value (get k fs) (str ""))

  unfoldable pub cdb_key : String → String → Result String (Option String)
  unfolding is_in string_eq plain_key url_key
  cdb_key t value =
      if value == "" || is_multiline value
      then ok none
      else if t == "url"
      then url_key value (scheme value)
      else ok (plain_key t value)

  abbrev first_reference : List String → Fields → String
  first_reference [] fs = "attribute"
  first_reference (k ∷ ks) fs =
      let value = strip (text_of k fs) in
      if not (value == "") && not (is_multiline value)
      then underscored value
      else first_reference ks fs

  unfoldable pub attribute_reference : Fields → String
  unfolding get or_value is_in string_eq
  attribute_reference fs = first_reference ("uuid" ∷ "id" ∷ "event_id" ∷ []) fs

  unfoldable pub add_attribute : Fields → List CdbList → Result String (List CdbList)
  unfolding get or_value list_name cdb_key place_row attribute_reference
  add_attribute fs ls = do
    k ← cdb_key (text_of "type" fs) (strip (text_of "value" fs))
    ok (place_row (list_name (text_of "type" fs)) k (text_of "type" fs) (attribute_reference fs) ls)

  unfoldable pub add_attributes : Bool → List Fields → List CdbList → Result String (List CdbList)
  unfolding add_attribute find holds
  add_attributes all [] ls = ok ls
  add_attributes all (fs ∷ more) ls =
      let kept = add_attribute fs ls in
      (if not all && not (flag (find "to_ids" fs)) then ok ls else kept) >>= λ next.
      add_attributes all more next

  unfoldable pub misp_attributes_to_wazuh_cdb :
      Bool → List Fields → Result String (Dict String (List String))
  unfolding add_attributes sorted
  misp_attributes_to_wazuh_cdb all attributes =
      sorted_lists (add_attributes all attributes empty_lists)
