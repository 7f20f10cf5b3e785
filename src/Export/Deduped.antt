-- ===== src/Export/Deduped.antt =====
-- src/honeypot_ai/exports.py: one attribute for each type and value.
use mathlib.Core.Path.{ap₂}
use mathlib.Core.List.{map}
use nsf_research_open_siem.Base.{
  ◌≡◌, refl, ap, ◌∙◌, String, List, [], ◌∷◌, ◌==◌, arith, inl, inr, Bool-cases,
}
use nsf_research_open_siem.Base.Dict.{Dict, keys, values, add, update}
use nsf_research_open_siem.Base.Lists.{All}
use nsf_research_open_siem.Base.Result.{Result, ok, raise}
use nsf_research_open_siem.Models.{Ioc}
use nsf_research_open_siem.Runtime.{Runtime, Addresses}
use nsf_research_open_siem.Export.Each.{Gathers, Keeps, nothing_Gathers, more_Gathers, kept_Keeps}
use nsf_research_open_siem.Export.Misp.{
  Attribute, AttributeKey, attribute_key_eq, pair_of, MispTexts, attribute_of, attributes_of,
  merge_attribute, deduped, one_each, report_to_misp_attributes,
}

module _ (py : Runtime) (ip : Addresses) (texts : MispTexts) where
  -- Each attribute stands under its type and value.
  abbrev Paired : Dict AttributeKey Attribute → Type 0
  Paired d = All (λ x. pair_of x.1 ≡ x.0) d

  pairs_eq : (d : Dict AttributeKey Attribute) → Paired d → map pair_of (values d) ≡ keys d
  unfolding values keys
  pairs_eq [] h = refl
  pairs_eq (x ∷ d) h = ap₂ (λ k ks. k ∷ ks) h.0 (pairs_eq d h.1)

  keys-merge_attribute :
      (a : Attribute) (d : Dict AttributeKey Attribute)
      → keys (merge_attribute py ip texts a d) ≡ add (pair_of a) (keys d)
  unfolding keys merge_attribute add
  keys-merge_attribute a [] = refl
  keys-merge_attribute a (x ∷ d) = ground (arith, keys-merge_attribute a d)

  merge_attribute-Paired :
      (a : Attribute) (d : Dict AttributeKey Attribute)
      → Paired d
      → Paired (merge_attribute py ip texts a d)
  unfolding merge_attribute
  merge_attribute-Paired a [] h = (refl, tt)
  merge_attribute-Paired a ((k, b) ∷ d) h = elim (Bool-cases (pair_of a == k)) [
    | inl t ↦ rw t (h.0, h.1)
    | inr f ↦ rw f (h.0, merge_attribute-Paired a d h.1)
  ]

  deduped-Paired :
      (more : List Attribute) (d : Dict AttributeKey Attribute)
      → Paired d
      → Paired (deduped py ip texts more d)
        × (keys (deduped py ip texts more d) ≡ update (map pair_of more) (keys d))
  unfolding deduped update
  deduped-Paired [] d h = (h, refl)
  deduped-Paired (a ∷ more) d h =
      let rest =
        deduped-Paired more (merge_attribute py ip texts a d) (merge_attribute-Paired a d h) in
      (rest.0, rest.1 ∙ ap (update (map pair_of more)) (keys-merge_attribute a d))

  attributes_of-Gathers :
      (iocs : List Ioc)
      → Gathers pair_of (attribute_of py ip texts) iocs (attributes_of py ip texts iocs)
  unfolding attributes_of
  attributes_of-Gathers [] = nothing_Gathers pair_of (attribute_of py ip texts)
  attributes_of-Gathers (i ∷ more) =
      more_Gathers pair_of (attribute_of py ip texts) i more (attribute_of py ip texts i)
        (attributes_of py ip texts more) refl (attributes_of-Gathers more)

  one_each-Keeps :
      (iocs : List Ioc) (r : Result String (List Attribute))
      → Gathers pair_of (attribute_of py ip texts) iocs r
      → Keeps pair_of (attribute_of py ip texts) iocs (one_each py ip texts r)
  unfolding values keys
  one_each-Keeps iocs (raise error) g = g
  one_each-Keeps iocs (ok all) g =
      let d = deduped-Paired all [] tt in
      kept_Keeps pair_of (attribute_of py ip texts) iocs all (values (deduped py ip texts all []))
        (pairs_eq _ d.0 ∙ d.1) g

  -- The export raises what the attribute of one of its indicators raises; otherwise no indicator
  -- raises, no two exported attributes have the same type and value, and a type and value are
  -- exported exactly if the attribute of one of the indicators has them.
  pub report_to_misp_attributes-OneEach :
      (iocs : List Ioc)
      → Keeps pair_of (attribute_of py ip texts) iocs (report_to_misp_attributes py ip texts iocs)
  unfolding report_to_misp_attributes
  report_to_misp_attributes-OneEach iocs =
      one_each-Keeps iocs (attributes_of py ip texts iocs) (attributes_of-Gathers iocs)
