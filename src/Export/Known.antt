-- ===== src/Export/Known.antt =====
-- src/honeypot_ai/ioc.py: every indicator is listed once.
use mathlib.Core.List.{map}
use nsf_research_open_siem.Base.{
  ◌≡◌, refl, sym, ap, ◌∙◌, List, [], ◌∷◌, ◌++◌, contains, arith, inl, inr, Bool-cases,
}
use nsf_research_open_siem.Base.Dict.{Dict, keys, values, lookup, add, update}
use nsf_research_open_siem.Base.Text.{is_some}
use nsf_research_open_siem.Base.Result.{ok, raise}
use nsf_research_open_siem.Models.{Event, Ioc}
use nsf_research_open_siem.Runtime.{Runtime, Addresses}
use nsf_research_open_siem.Export.Each.{Gathers, Keeps, nothing_Gathers, more_Gathers, kept_Keeps}
use nsf_research_open_siem.Export.Iocs.{
  Patterns, IocKey, ioc_key_eq, key_of, Found, set_default, collect, event_iocs, all_iocs, unique,
  extract_iocs,
}

is_some-lookup : (k : IocKey) (d : Dict IocKey Ioc) → is_some (lookup k d) ≡ contains (keys d) k
unfolding lookup keys
is_some-lookup k [] = refl
is_some-lookup k (x ∷ d) = ground (arith, is_some-lookup k d)

values-append :
    (d : Dict IocKey Ioc) (i : Ioc)
    → map key_of (values (d ++ (key_of i, i) ∷ [])) ≡ map key_of (values d) ++ key_of i ∷ []
unfolding values
values-append [] i = refl
values-append (x ∷ d) i = ap (λ ks. key_of x.1 ∷ ks) (values-append d i)

keys-append :
    (d : Dict IocKey Ioc) (i : Ioc) → keys (d ++ (key_of i, i) ∷ []) ≡ keys d ++ key_of i ∷ []
unfolding keys
keys-append [] i = refl
keys-append (x ∷ d) i = ap (λ ks. x.0 ∷ ks) (keys-append d i)

-- The dict stores each indicator under its key.
abbrev Keyed : Dict IocKey Ioc → Type 0
Keyed d = map key_of (values d) ≡ keys d

append-Keyed : (d : Dict IocKey Ioc) (i : Ioc) → Keyed d → Keyed (d ++ (key_of i, i) ∷ [])
unfolding keys values
append-Keyed d i h = values-append d i ∙ ap (λ ks. ks ++ key_of i ∷ []) h ∙ sym (keys-append d i)

set_default-Keyed :
    (i : Ioc) (d : Dict IocKey Ioc)
    → Keyed d
    → Keyed (set_default i d) × (keys (set_default i d) ≡ add (key_of i) (keys d))
unfolding set_default add
set_default-Keyed i d h = elim (Bool-cases (contains (keys d) (key_of i))) [
  | inl t ↦ rw (is_some-lookup (key_of i) d, t) (h, refl)
  | inr f ↦ rw (is_some-lookup (key_of i) d, f) (append-Keyed d i h, keys-append d i)
]

collect-Keyed :
    (is : List Ioc) (d : Dict IocKey Ioc)
    → Keyed d
    → Keyed (collect is d) × (keys (collect is d) ≡ update (map key_of is) (keys d))
unfolding collect update
collect-Keyed [] d h = (h, refl)
collect-Keyed (i ∷ is) d h =
    let one = set_default-Keyed i d h in
    let more = collect-Keyed is (set_default i d) one.0 in
    (more.0, more.1 ∙ ap (update (map key_of is)) one.1)

module _ (py : Runtime) (ip : Addresses) (re : Patterns) where
  all_iocs-Gathers :
      (es : List Event) → Gathers key_of (event_iocs py ip re) es (all_iocs py ip re es)
  unfolding all_iocs
  all_iocs-Gathers [] = nothing_Gathers key_of (event_iocs py ip re)
  all_iocs-Gathers (e ∷ es) =
      more_Gathers key_of (event_iocs py ip re) e es (event_iocs py ip re e) (all_iocs py ip re es)
        refl (all_iocs-Gathers es)

  unique-Keeps :
      (es : List Event) (f : Found)
      → Gathers key_of (event_iocs py ip re) es f
      → Keeps key_of (event_iocs py ip re) es (unique f)
  unfolding unique values keys
  unique-Keeps es (raise error) g = g
  unique-Keeps es (ok all) g =
      let k = collect-Keyed all [] refl in
      kept_Keeps key_of (event_iocs py ip re) es all (values (collect all [])) (k.0 ∙ k.1) g

  -- A search raises what the search of one of its events raises; otherwise no event raises, no two
  -- listed indicators have the same kind, value and context, and a kind, value and context are listed
  -- exactly if an indicator of one of the events has them.
  pub extract_iocs-Lists :
      (es : List Event) → Keeps key_of (event_iocs py ip re) es (extract_iocs py ip re es)
  unfolding extract_iocs
  extract_iocs-Lists es = unique-Keeps es (all_iocs py ip re es) (all_iocs-Gathers es)
