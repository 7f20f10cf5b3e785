-- ===== src/Ml/Selected.antt =====
-- src/honeypot_ai/ml.py: the scorer that is selected has been trained.
use nsf_research_open_siem.Base.{
  ◌≡◌, refl, String, Bool, true, false, ◌||◌, List, [], ◌∷◌, Option, none, some, ◌==◌, string_eq,
  contains, arith, inl, inr, map, Bool-cases,
}
use nsf_research_open_siem.Base.Dict.{Dict}
use nsf_research_open_siem.Base.Lists.{All, greatest, greatest-All}
use nsf_research_open_siem.Base.Result.{Result, ok, raise, ◌>>=◌}
use nsf_research_open_siem.Runtime.{Runtime}
use nsf_research_open_siem.Ml.Numerics.{Numerics}
use nsf_research_open_siem.Ml.Names.{
  MlError, value_error, no_attribute, key_error, named, scorer_river, scorer_isolation_log1p,
  normalize_scorer,
}
use nsf_research_open_siem.Ml.Scorers.{
  Metric, Ranked, cons_ranked, ranking, ranked_less, choose, select_scorer, river_suffices,
  river_auc,
}

abbrev pub IsValueError : MlError → Type 0
IsValueError (value_error t) = Unit
IsValueError (no_attribute t) = true ≡ false
IsValueError (key_error t) = true ≡ false

-- A result, or a ValueError.
abbrev pub Clean : {A : Type 0} → Result MlError A → Type 0
Clean (ok a) = Unit
Clean (raise e) = IsValueError e

pub bind-Clean :
    {A B : Type 0} (r : Result MlError A) (f : A → Result MlError B)
    → Clean r
    → ((a : A) → r ≡ ok a → Clean (f a))
    → Clean (r >>= f)
bind-Clean (ok a) f c k = k a refl
bind-Clean (raise e) f c k = c

pub map-Clean :
    {A B : Type 0} (r : Result MlError A) (f : A → B) → Clean r → Clean (r >>= (λ a. ok (f a)))
map-Clean (ok a) f c = tt
map-Clean (raise e) f c = c

pub named-Clean : (error : String) (o : Option String) → Clean (named error o)
named-Clean error none = tt
named-Clean error (some s) = tt

pub same_text : (s t : String) → (s == t) ≡ true → s ≡ t
same_text s t h = ground arith

pub same_key : (s : String) → (s == s) ≡ true
same_key s = ground arith

pub river_plain : (scorer_river == scorer_isolation_log1p) ≡ false
unfolding string_eq
river_plain = refl

pub or_false : {a b : Bool} → a ≡ false → (a || (b || false)) ≡ true → b ≡ true
or_false h k = ground arith

-- One of the names, or a ValueError.
abbrev pub Selects : List String → Result MlError String → Type 0
Selects names (ok s) = contains names s ≡ true
Selects names (raise e) = IsValueError e

pub normalize_scorer-Clean : (scorer : String) → Clean (normalize_scorer scorer)
unfolding normalize_scorer
normalize_scorer-Clean scorer = named-Clean _ _

module _ (py : Runtime) (np : Numerics py) where
  open py use {Float}

  abbrev Among : List String → List (Ranked Float) → Type 0
  Among names rs = All (λ r. contains names r.2 ≡ true) rs

  Among-more :
      (n : String) (names : List String) (rs : List (Ranked Float))
      → Among names rs
      → Among (n ∷ names) rs
  Among-more n names [] h = tt
  Among-more n names (r ∷ rs) h = (ground (arith, h.0), Among-more n names rs h.1)

  module _ (replace_dashes : String → String) where
    cons-Among :
        (n : String) (names : List String) (o : Option Float) (rs : List (Ranked Float))
        → Among names rs
        → Among (n ∷ names) (cons_ranked py np replace_dashes n o rs)
    cons-Among n names none rs h = Among-more n names rs h
    cons-Among n names (some a) rs h = (ground arith, Among-more n names rs h)

    ranking-Among :
        (names : List String) (metrics : Dict String (Metric Float))
        → Among names (ranking py np replace_dashes names metrics)
    unfolding ranking
    ranking-Among [] metrics = tt
    ranking-Among (n ∷ names) metrics =
        cons-Among n names _ (ranking py np replace_dashes names metrics)
          (ranking-Among names metrics)

    choose-Among :
        (names : List String) (rs : List (Ranked Float))
        → contains names scorer_river ≡ true
        → Among names rs
        → contains names (choose py np replace_dashes names rs) ≡ true
    choose-Among names [] h a = ground (arith, h)
    choose-Among names (r ∷ rs) h a =
        elim (Bool-cases (
          river_suffices py np (greatest np.float_lt r.0 (map (λ x. x.0) rs))
            (river_auc py np (r ∷ rs)))) [
              | inl t ↦ rw t h
              | inr f ↦
                  rw f
                    (greatest-All (λ x. contains names x.2 ≡ true) (ranked_less py np) r rs a.0 a.1)
            ]

    pub select_scorer-Selects :
        (requested : String) (names : List String) (metrics : Dict String (Metric Float))
        → contains names scorer_river ≡ true
        → Selects names (select_scorer py np replace_dashes requested names metrics)
    unfolding select_scorer
    select_scorer-Selects requested names metrics h = elim (Bool-cases (requested == "auto")) [
      | inl t ↦ rw t (choose-Among names _ h (ranking-Among names metrics))
      | inr f ↦
          rw f (elim (Bool-cases (contains names requested)) [ inl y ↦ rw y y | inr n ↦ rw n tt ])
    ]
