-- ===== src/Export/Iocs.antt =====
-- src/honeypot_ai/ioc.py: the indicators of a log.
use Prim.Native.String.{len}
use nsf_research_open_siem.Base.{
  String, ◌<>◌, Bool, true, false, not, ◌&&◌, ◌||◌, List, [], ◌∷◌, ◌++◌, Option, none, some, ◌==◌,
  string_eq, nat_eq, Eq, if◌then◌else◌,
}
use nsf_research_open_siem.Base.Dict.{Dict, lookup, values}
use nsf_research_open_siem.Base.Text.{is_some, truthy, or_text, show}
use nsf_research_open_siem.Base.Result.{Result, ok, raise, ◌>>=◌}
use nsf_research_open_siem.Models.{Value, bool, int, float, str, Fields, end, field, Event, Ioc}
use nsf_research_open_siem.Runtime.{Runtime, Addresses}

-- The regular expressions on a text: the URLs, the addresses and the hashes that they find, and
-- whether a text is a hash; `urlparse(url).hostname`, which raises `ValueError` for an unclosed
-- bracket; and `rstrip` of the punctuation and of dots.
pub record Patterns : Type 0 where
  pub find_urls : String → List String
  pub find_ips : String → List String
  pub find_hashes : String → List String
  pub is_hash : String → Bool
  pub hostname : String → Result String (Option String)
  pub strip_punctuation : String → String
  pub strip_dots : String → String

-- `(ioc.kind, ioc.value, ioc.context)`
abbrev pub IocKey : Type 0
IocKey = String × String × String

IocKey-discrete : Discrete IocKey
unfolding string_eq
IocKey-discrete = hlevel string_eq.dec

instance unfoldable pub ioc_key_eq : Eq IocKey
unfolding IocKey-discrete
ioc_key_eq = record { dec = IocKey-discrete }

abbrev pub key_of : Ioc → IocKey
key_of i = (i.kind, i.value, i.context)

-- The indicators, or the `ValueError` that stops the search.
abbrev pub Found : Type 0
Found = Result String (List Ioc)

abbrev pub followed_by : Found → Found → Found
followed_by (raise error) more = raise error
followed_by (ok found) (raise error) = raise error
followed_by (ok found) (ok more) = ok (found ++ more)

-- `seen.setdefault(key, ioc)`
unfoldable pub set_default : Ioc → Dict IocKey Ioc → Dict IocKey Ioc
unfolding lookup ioc_key_eq
set_default i d = if is_some (lookup (key_of i) d) then d else d ++ (key_of i, i) ∷ []

unfoldable pub collect : List Ioc → Dict IocKey Ioc → Dict IocKey Ioc
unfolding set_default
collect [] d = d
collect (i ∷ is) d = collect is (set_default i d)

unfoldable pub unique : Found → Found
unfolding collect values
unique (raise error) = raise error
unique (ok all) = ok (values (collect all []))

unfoldable pub context_of : Event → String
unfolding show string_eq nat_eq
context_of e =
    if truthy e.session
    then "session:" <> or_text e.session ""
    else if truthy e.src_ip
    then "src:" <> or_text e.src_ip ""
    else elim e.line_number [
      | none ↦ e.event_type
      | some n ↦ if n == 0 then e.event_type else "line:" <> show n
    ]

module _ (py : Runtime) (ip : Addresses) (re : Patterns) where
  open py use {lower, strip, str_of}
  open ip use {ip_address}
  open re use {find_urls, find_ips, find_hashes, is_hash, hostname, strip_punctuation, strip_dots}

  unfoldable pub valid_ip : String → Bool
  valid_ip s = is_some (ip_address s)

  unfoldable pub hash_kind : String → String
  unfolding nat_eq
  hash_kind s = if len s == 32 then "md5" else if len s == 40 then "sha1" else "sha256"

  unfoldable pub normalize_domain : String → String
  normalize_domain s = lower (strip_dots (strip s))

  abbrev ioc : String → String → Event → Ioc
  ioc kind value e = record {
    kind = kind;
    value = value;
    source = e.source;
    context = context_of e;
  }

  abbrev host_iocs : Result String (Option String) → Event → Found
  host_iocs (raise error) e = raise error
  host_iocs (ok none) e = ok []
  host_iocs (ok (some h)) e = ok (
      if h == ""
      then []
      else ioc (if valid_ip h then "ip" else "domain") (if valid_ip h then h else lower h) e ∷ [])

  unfoldable pub url_iocs : String → Event → Found
  unfolding valid_ip string_eq context_of
  url_iocs url e =
      let clean = strip_punctuation url in
      followed_by (ok (ioc "url" clean e ∷ [])) (host_iocs (hostname clean) e)

  abbrev address_ioc : String → Option String → Event → List Ioc
  address_ioc role value e =
      let v = or_text value "" in if truthy value && valid_ip v then ioc role v e ∷ [] else []

  abbrev hash_iocs : Dict String String → Event → List Ioc
  hash_iocs [] e = []
  hash_iocs ((name, v) ∷ d) e =
      if is_hash v then ioc name (lower v) e ∷ hash_iocs d e else hash_iocs d e

  abbrev found_urls : List String → Event → Found
  found_urls [] e = ok []
  found_urls (u ∷ us) e = followed_by (url_iocs (strip_punctuation u) e) (found_urls us e)

  -- An address that the event's fields name is not taken from a text again.
  abbrev is_structured : String → Event → Bool
  is_structured a e =
      (truthy e.src_ip && or_text e.src_ip "" == a)
      || (truthy e.dest_ip && or_text e.dest_ip "" == a)

  abbrev found_ips : List String → Event → List Ioc
  found_ips [] e = []
  found_ips (a ∷ more) e =
      if not (is_structured a e) && valid_ip a
      then ioc "ip" a e ∷ found_ips more e
      else found_ips more e

  abbrev found_hashes : List String → Event → List Ioc
  found_hashes [] e = []
  found_hashes (h ∷ hs) e = let d = lower h in ioc (hash_kind d) d e ∷ found_hashes hs e

  unfoldable pub text_iocs : String → Event → Found
  unfolding url_iocs valid_ip hash_kind context_of string_eq
  text_iocs text e =
      if text == ""
      then ok []
      else followed_by (found_urls (find_urls text) e)
          (ok (found_ips (find_ips text) e ++ found_hashes (find_hashes text) e))

  abbrev is_plain : Value → Bool
  is_plain (bool b) = true
  is_plain (int n) = true
  is_plain (float x) = true
  is_plain (str s) = true
  is_plain v = false

  abbrev plain_texts : Fields → List String
  plain_texts end = []
  plain_texts (field k v fs) = if is_plain v then str_of v ∷ plain_texts fs else plain_texts fs

  abbrev spaced : List String → String
  spaced [] = ""
  spaced (t ∷ []) = t
  spaced (t ∷ u ∷ ts) = t <> " " <> spaced (u ∷ ts)

  -- The texts of the plain values of the raw record.
  unfoldable pub raw_text : Event → String
  raw_text e = spaced (plain_texts e.raw)

  unfoldable pub event_iocs : Event → Found
  unfolding valid_ip url_iocs normalize_domain text_iocs raw_text context_of string_eq
  event_iocs e =
      followed_by (ok (address_ioc "src_ip" e.src_ip e ++ address_ioc "dest_ip" e.dest_ip e)) (
        followed_by (if truthy e.url then url_iocs (or_text e.url "") e else ok []) (
          followed_by
            (ok (
              (if truthy e.domain
                then ioc "domain" (normalize_domain (or_text e.domain "")) e ∷ []
                else [])
              ++ hash_iocs e.hashes e))
            (followed_by (text_iocs (or_text e.command "") e) (text_iocs (raw_text e) e))))

  unfoldable pub all_iocs : List Event → Found
  unfolding event_iocs
  all_iocs [] = ok []
  all_iocs (e ∷ es) = do found ← event_iocs e; more ← all_iocs es; ok (found ++ more)

  unfoldable pub extract_iocs : List Event → Found
  unfolding all_iocs unique
  extract_iocs es = unique (all_iocs es)
