-- ===== src/Export/Misp.antt =====
-- src/honeypot_ai/exports.py: indicators as attributes of MISP.
use nsf_research_open_siem.Base.{
  String, ◌<>◌, Bool, true, false, not, ◌||◌, List, [], ◌∷◌, ◌++◌, Option, none, some, ◌==◌,
  string_eq, contains, if◌then◌else◌, Eq,
}
use nsf_research_open_siem.Base.Dict.{Dict, lookup, values, update}
use nsf_research_open_siem.Base.Text.{is_in, ends_with_any}
use nsf_research_open_siem.Base.Result.{Result, ok, raise, ◌>>=◌}
use nsf_research_open_siem.Models.{Ioc}
use nsf_research_open_siem.Runtime.{Runtime, Addresses}
use nsf_research_open_siem.Correlation.Actors.{ip_scope}

-- `MISP_TYPES`
abbrev pub misp_types : Dict String String
misp_types =
    ("src_ip", "ip-src")
    ∷ ("dest_ip", "ip-dst")
    ∷ ("ip", "ip-dst")
    ∷ ("domain", "domain")
    ∷ ("url", "url")
    ∷ ("md5", "md5")
    ∷ ("sha1", "sha1")
    ∷ ("sha256", "sha256")
    ∷ []

-- What `_ioc_to_misp` returns.
pub record Attribute : Type 0 where
  pub category : String
  pub type : String
  pub value : String
  pub to_ids : Bool
  pub comment : String

unfoldable pub misp_category : String → String
unfolding string_eq
misp_category t =
    if contains ("md5" ∷ "sha1" ∷ "sha256" ∷ []) t then "Payload delivery" else "Network activity"

-- `(attribute["type"], attribute["value"])`
abbrev pub AttributeKey : Type 0
AttributeKey = String × String

AttributeKey-discrete : Discrete AttributeKey
unfolding string_eq
AttributeKey-discrete = hlevel string_eq.dec

instance unfoldable pub attribute_key_eq : Eq AttributeKey
unfolding AttributeKey-discrete
attribute_key_eq = record { dec = AttributeKey-discrete }

abbrev pub pair_of : Attribute → AttributeKey
pair_of a = (a.type, a.value)

abbrev joined : List String → String
joined [] = ""
joined (t ∷ []) = t
joined (t ∷ u ∷ ts) = t <> "; " <> joined (u ∷ ts)

-- `urlparse(value).hostname`, which raises `ValueError` for an unclosed bracket; `rstrip` of dots;
-- `split("; ")`; and `value.replace(".", "").isdigit()`
pub record MispTexts : Type 0 where
  pub hostname : String → Result String (Option String)
  pub strip_dots : String → String
  pub comment_parts : String → List String
  pub is_dotted_digits : String → Bool

module _ (py : Runtime) (ip : Addresses) (texts : MispTexts) where
  open py use {lower, strip}
  open texts use {hostname, strip_dots, comment_parts, is_dotted_digits}

  unfoldable pub merge_comments : String → String → String
  unfolding update string_eq
  merge_comments left right = joined (update (comment_parts right) (update (comment_parts left) []))

  unfoldable pub is_reserved_domain : String → Bool
  unfolding ends_with_any string_eq
  is_reserved_domain value =
      let normalized = lower (strip_dots (strip value)) in
      contains ("example.com" ∷ "example.net" ∷ "example.org" ∷ "localhost" ∷ []) normalized
      || ends_with_any normalized (".example" ∷ ".test" ∷ ".invalid" ∷ ".localhost" ∷ [])

  unfoldable pub looks_like_ip : String → Bool
  unfolding is_in
  looks_like_ip value = is_in ":" value || is_dotted_digits value

  abbrev host_to_ids : Option String → Bool
  host_to_ids none = false
  host_to_ids (some host) =
      if host == ""
      then false
      else if looks_like_ip host
      then ip_scope ip host == "global"
      else not (is_reserved_domain host)

  abbrev url_to_ids : Result String (Option String) → Result String Bool
  url_to_ids (raise error) = raise error
  url_to_ids (ok host) = ok (host_to_ids host)

  unfoldable pub misp_to_ids : String → String → Result String Bool
  unfolding ip_scope is_reserved_domain looks_like_ip string_eq
  misp_to_ids t value =
      if t == "ip-src" || t == "ip-dst"
      then ok (ip_scope ip value == "global")
      else if t == "domain"
      then ok (not (is_reserved_domain value))
      else if t == "url"
      then url_to_ids (hostname value)
      else ok true

  unfoldable pub ioc_to_misp : String → Ioc → Result String Attribute
  unfolding misp_to_ids misp_category
  ioc_to_misp t i = do
    ids ← misp_to_ids t i.value
    ok (record {
      category = misp_category t;
      type = t;
      value = i.value;
      to_ids = ids;
      comment = i.source <> " " <> i.context;
    })

  abbrev typed : Option String → Ioc → Result String (List Attribute)
  typed none i = ok []
  typed (some t) i = do a ← ioc_to_misp t i; ok (a ∷ [])

  -- The attributes of one indicator: none or one.
  unfoldable pub attribute_of : Ioc → Result String (List Attribute)
  unfolding ioc_to_misp lookup string_eq
  attribute_of i = typed (lookup i.kind misp_types) i

  unfoldable pub attributes_of : List Ioc → Result String (List Attribute)
  unfolding attribute_of
  attributes_of [] = ok []
  attributes_of (i ∷ more) = do a ← attribute_of i; rest ← attributes_of more; ok (a ++ rest)

  -- One turn of the loop that keeps one attribute for each type and value.
  unfoldable pub merge_attribute :
      Attribute → Dict AttributeKey Attribute → Dict AttributeKey Attribute
  unfolding attribute_key_eq merge_comments
  merge_attribute a [] = (pair_of a, a) ∷ []
  merge_attribute a ((k, b) ∷ d) =
      if pair_of a == k
      then (k, record b { comment = merge_comments b.comment a.comment }) ∷ d
      else (k, b) ∷ merge_attribute a d

  unfoldable pub deduped :
      List Attribute → Dict AttributeKey Attribute → Dict AttributeKey Attribute
  unfolding merge_attribute
  deduped [] d = d
  deduped (a ∷ more) d = deduped more (merge_attribute a d)

  abbrev pub one_each : Result String (List Attribute) → Result String (List Attribute)
  one_each (raise error) = raise error
  one_each (ok attributes) = ok (values (deduped attributes []))

  -- The list that `report_to_misp_attributes` prints as JSON
  unfoldable pub report_to_misp_attributes : List Ioc → Result String (List Attribute)
  unfolding attributes_of deduped values
  report_to_misp_attributes iocs = one_each (attributes_of iocs)
