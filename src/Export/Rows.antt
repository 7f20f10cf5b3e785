-- ===== src/Export/Rows.antt =====
-- src/honeypot_ai/misp.py: what the rows of the four lists are.
use mathlib.Core.Path.{subst}
use mathlib.Core.List.{map, Perm}
use nsf_research_open_siem.Base.{
  ◌≡◌, refl, sym, ap, ◌∙◌, String, Bool, true, false, List, [], ◌∷◌, ◌++◌, Option, none, some, ◌==◌,
  string_eq, contains, if◌then◌else◌, arith, inl, inr, Bool-cases,
}
use nsf_research_open_siem.Base.Dict.{Dict, Distinct, snoc-Distinct}
use nsf_research_open_siem.Base.Lists.{All}
use nsf_research_open_siem.Base.Sort.{sorted, sorted-perm}
use nsf_research_open_siem.Base.Result.{Result, ok, raise, ◌>>=◌}
use nsf_research_open_siem.Models.{Fields}
use nsf_research_open_siem.Runtime.{Runtime}
use nsf_research_open_siem.Export.Keys.{IsKey, KeyOf, cdb-KeyOf}
use nsf_research_open_siem.Export.Cdb.{
  CdbList, list_name, row_before, add_cdb_row, text_of, attribute_reference, cdb_row, place_row,
  cdb_key, add_attribute, add_attributes, empty_lists, sorted_rows, sorted_lists,
  misp_attributes_to_wazuh_cdb,
}

-- What a row is made of: its key, the type of its attribute, and the reference.
abbrev pub Entry : Type 0
Entry = String × String × String

abbrev line_of : Entry → String
line_of x = cdb_row x.0 x.1 x.2

abbrev pub IsEntry : String → Entry → Type 0
IsEntry name x = (list_name x.1 ≡ some name) × IsKey x.1 x.0

abbrev keys_of : List Entry → List String
keys_of entries = map (λ x. x.0) entries

abbrev IsList : CdbList → Type 0
IsList l =
    (entries : List Entry) × (l.seen ≡ keys_of entries)
    × (l.rows ≡ map line_of entries)
    × Distinct l.seen
    × All (IsEntry l.name) entries

new_IsList : (n : String) → IsList (record { name = n; seen = []; rows = [] })
new_IsList n = ([], refl, refl, tt, tt)

map-snoc :
    {A B : Type 0} (f : A → B) (xs : List A) (x : A) → map f (xs ++ x ∷ []) ≡ map f xs ++ f x ∷ []
map-snoc f [] x = refl
map-snoc f (y ∷ xs) x = ap (λ ys. f y ∷ ys) (map-snoc f xs x)

All-snoc :
    {A : Type 0} (P : A → Type 0) (xs : List A) (x : A) → All P xs → P x → All P (xs ++ x ∷ [])
All-snoc P [] x h p = (p, tt)
All-snoc P (y ∷ xs) x h p = (h.0, All-snoc P xs x h.1 p)

add_row-IsList :
    (l : CdbList) (x : Entry)
    → contains l.seen x.0 ≡ false
    → IsEntry l.name x
    → IsList l
    → IsList (record l { seen = l.seen ++ x.0 ∷ []; rows = l.rows ++ line_of x ∷ [] })
add_row-IsList l x new e (entries, s, r, d, a) = (
  entries ++ x ∷ [],
  ap (λ ks. ks ++ x.0 ∷ []) s ∙ sym (map-snoc (λ y. y.0) entries x),
  ap (λ rs. rs ++ line_of x ∷ []) r ∙ sym (map-snoc line_of entries x),
  snoc-Distinct l.seen x.0 new d,
  All-snoc (IsEntry l.name) entries x a e,
)

add_cdb_row-IsList :
    (name : String) (x : Entry) (ls : List CdbList)
    → IsEntry name x
    → All IsList ls
    → All IsList (add_cdb_row name x.0 (line_of x) ls)
unfolding add_cdb_row
add_cdb_row-IsList name x [] e h = tt
add_cdb_row-IsList name x (l ∷ ls) e h = elim (Bool-cases (l.name == name)) [
  | inr f ↦ rw f (h.0, add_cdb_row-IsList name x ls e h.1)
  | inl t ↦ elim (Bool-cases (contains l.seen x.0)) [
    | inl old ↦ rw (t, old) h
    | inr new ↦
        let same : l.name ≡ name = ground (arith, t) in
        rw (t, new) (add_row-IsList l x new (subst (λ n. IsEntry n x) (sym same) e) h.0, h.1)
  ]
]

module _ (py : Runtime) (scheme : String → Result String String)
    (underscored : String → String) where
  -- A search that raised was stopped by a text that `urlparse` refuses.
  abbrev Built : Result String (List CdbList) → Type 0
  Built (raise error) = (v : String) × (scheme v ≡ raise error)
  Built (ok ls) = All IsList ls

  place_row-IsList :
      (name : Option String) (t v reference : String) (k : Result String (Option String))
      (ls : List CdbList)
      → list_name t ≡ name
      → KeyOf scheme t v k
      → All IsList ls
      → Built (k >>= λ key. ok (place_row name key t reference ls))
  unfolding place_row
  place_row-IsList name t v reference (raise error) ls n k h = (v, k)
  place_row-IsList none t v reference (ok key) ls n k h = h
  place_row-IsList (some name) t v reference (ok none) ls n k h = h
  place_row-IsList (some name) t v reference (ok (some key)) ls n k h =
      add_cdb_row-IsList name (key, t, reference) ls (n, k) h

  add_attribute-Built :
      (fs : Fields) (ls : List CdbList)
      → All IsList ls
      → Built (add_attribute py scheme underscored fs ls)
  unfolding add_attribute
  add_attribute-Built fs ls h =
      let t = text_of py scheme underscored "type" fs in
      let v = py.strip (text_of py scheme underscored "value" fs) in
      place_row-IsList (list_name t) t v (attribute_reference py scheme underscored fs)
        (cdb_key py scheme underscored t v) ls refl (cdb-KeyOf py scheme underscored t v) h

  then_Built :
      (r : Result String (List CdbList)) (f : List CdbList → Result String (List CdbList))
      → Built r
      → ((ls : List CdbList) → All IsList ls → Built (f ls))
      → Built (r >>= f)
  then_Built (raise error) f h k = h
  then_Built (ok ls) f h k = k ls h

  choice_Built :
      (b : Bool) (r s : Result String (List CdbList))
      → Built r
      → Built s
      → Built (if b then r else s)
  choice_Built true r s h k = h
  choice_Built false r s h k = k

  add_attributes-Built :
      (all : Bool) (attributes : List Fields) (ls : List CdbList)
      → All IsList ls
      → Built (add_attributes py scheme underscored all attributes ls)
  unfolding add_attributes
  add_attributes-Built all [] ls h = h
  add_attributes-Built all (fs ∷ more) ls h =
      then_Built _ _ (choice_Built _ (ok ls) _ h (add_attribute-Built fs ls h))
        (λ next k. add_attributes-Built all more next k)

  -- A list by its name, and its rows in any order.
  abbrev pub IsCdb : String × List String → Type 0
  IsCdb d =
      (entries : List Entry) × Perm d.1 (map line_of entries)
      × Distinct (keys_of entries)
      × All (IsEntry d.0) entries

  abbrev pub AreCdb : Result String (Dict String (List String)) → Type 0
  AreCdb (raise error) = (v : String) × (scheme v ≡ raise error)
  AreCdb (ok d) = All IsCdb d

  sorted-IsCdb : (l : CdbList) → IsList l → IsCdb (sorted_rows l)
  sorted-IsCdb l (entries, s, r, d, a) = (
    entries,
    subst (λ rs. Perm (sorted row_before l.rows) rs) r (sorted-perm row_before l.rows),
    subst Distinct s d,
    a,
  )

  all-IsCdb : (ls : List CdbList) → All IsList ls → All IsCdb (map sorted_rows ls)
  all-IsCdb [] h = tt
  all-IsCdb (l ∷ ls) h = (sorted-IsCdb l h.0, all-IsCdb ls h.1)

  sorted-AreCdb : (r : Result String (List CdbList)) → Built r → AreCdb (sorted_lists r)
  sorted-AreCdb (raise error) h = h
  sorted-AreCdb (ok ls) h = all-IsCdb ls h

  -- Each row of a list is a key, "misp", a type of that list and a reference, and no two rows of a list
  -- have the same key; a key is one line, not empty and, unless its type is a hash, without a colon.
  -- The function raises only where `urlparse` refuses a text.
  pub misp_attributes_to_wazuh_cdb-AreCdb :
      (all : Bool) (attributes : List Fields)
      → AreCdb (misp_attributes_to_wazuh_cdb py scheme underscored all attributes)
  unfolding misp_attributes_to_wazuh_cdb
  misp_attributes_to_wazuh_cdb-AreCdb all attributes = sorted-AreCdb _ (
      add_attributes-Built all attributes empty_lists (
        new_IsList "misp-ip",
        (new_IsList "misp-domain", (new_IsList "misp-url", (new_IsList "misp-hash", tt))),
      ))
