-- ===== src/Export/Keys.antt =====
-- src/honeypot_ai/misp.py: what the keys of the rows are.
use mathlib.Core.Path.{subst}
use nsf_research_open_siem.Base.{
  ◌≡◌, refl, String, false, not, ◌&&◌, ◌||◌, Option, none, some, ◌==◌, string_eq, arith, inl, inr,
  Bool-cases,
}
use nsf_research_open_siem.Base.Text.{is_in}
use nsf_research_open_siem.Base.Result.{Result, ok, raise}
use nsf_research_open_siem.Runtime.{Runtime}
use nsf_research_open_siem.Export.Cdb.{is_hash_type, is_multiline, plain_key, url_key, cdb_key}

-- A key is not empty and of one line, and has no colon, which ends the key of a row, unless it is
-- called a hash.
abbrev pub IsKey : String → String → Type 0
IsKey t k =
    ((k == "") ≡ false) × (is_multiline k ≡ false) × ((is_in ":" k && not (is_hash_type t)) ≡ false)

-- What a key may be: the error of `urlparse`, no key, or one that a row can hold.
abbrev pub KeyOf :
    (String → Result String String) → String → String → Result String (Option String) → Type 0
KeyOf scheme t v (raise error) = scheme v ≡ raise error
KeyOf scheme t v (ok none) = Unit
KeyOf scheme t v (ok (some k)) = IsKey t k

plain-KeyOf :
    (scheme : String → Result String String) (t v : String)
    → (v == "") ≡ false
    → is_multiline v ≡ false
    → KeyOf scheme t v (ok (plain_key t v))
unfolding plain_key
plain-KeyOf scheme t v n m = elim (Bool-cases (is_in ":" v && not (is_hash_type t))) [
  | inl c ↦ rw c tt
  | inr c ↦ rw c (n, m, c)
]

url-KeyOf :
    (scheme : String → Result String String) (v : String) (r : Result String String)
    → scheme v ≡ r
    → (v == "") ≡ false
    → is_multiline v ≡ false
    → KeyOf scheme "url" v (url_key v r)
unfolding url_key
url-KeyOf scheme v (raise error) h n m = h
url-KeyOf scheme v (ok s) h n m = elim (Bool-cases (not (s == "") || is_in ":" v)) [
  | inl c ↦ rw c tt
  | inr c ↦ rw c (plain-KeyOf scheme "url" v n m)
]

pub cdb-KeyOf :
    (py : Runtime) (scheme : String → Result String String) (underscored : String → String)
    (t v : String)
    → KeyOf scheme t v (cdb_key py scheme underscored t v)
unfolding cdb_key
cdb-KeyOf py scheme underscored t v = elim (Bool-cases (v == "" || is_multiline v)) [
  | inl c ↦ rw c tt
  | inr c ↦ elim (Bool-cases (t == "url")) [
    | inl u ↦
        let same : "url" ≡ t = ground (arith, u) in
        rw (c, u)
          (subst (λ z. KeyOf scheme z v (url_key v (scheme v))) same
            (url-KeyOf scheme v (scheme v) refl (ground (arith, c)) (ground (arith, c))))
    | inr f ↦ rw (c, f) (plain-KeyOf scheme t v (ground (arith, c)) (ground (arith, c)))
  ]
]
