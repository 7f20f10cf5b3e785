-- ===== src/Correlation/Visits.antt =====
-- src/honeypot_ai/correlation.py: how often the events of a log count for the actors.
use mathlib.Core.Option.{get_or}
use nsf_research_open_siem.Base.{
  ℕ, ◌+◌, ◌≡◌, refl, ◌∙◌, String, Bool, true, false, List, [], ◌∷◌, some, map, sum, arith,
  string_eq,
}
use nsf_research_open_siem.Base.Dict.{Dict, length, values, upsert, lookup, sum-upsert}
use nsf_research_open_siem.Base.Group.{sum-group}
use nsf_research_open_siem.Base.Sort.{sum-sorted}
use nsf_research_open_siem.Base.Text.{truthy}
use nsf_research_open_siem.Models.{Event, RiskFinding, ActorProfile}
use nsf_research_open_siem.Runtime.{Runtime, Addresses}
use nsf_research_open_siem.Features.{bump}
use nsf_research_open_siem.Detectors.Findings.{events_by_session}
use nsf_research_open_siem.Correlation.Actors.{
  Visit, goes_elsewhere, visit_if, visits, new_actor, apply_visit, observed, apply_finding,
  finding_actor_ips, blame, blame_all, not_below, correlate_actors,
}

-- Once for a source, and once for a destination that is another address.
abbrev pub sides : Event → ℕ
sides e = bump (truthy e.src_ip) 0 + bump (goes_elsewhere e) 0

length-visit_if :
    (b : Bool) (v : Visit) (vs : List Visit) → length (visit_if b v vs) ≡ bump b 0 + length vs
length-visit_if true v vs = omega arith
length-visit_if false v vs = omega arith

length-visits : (es : List Event) → length (visits es) ≡ sum (map sides es)
unfolding visits sum
length-visits [] = refl
length-visits (e ∷ es) = rw (length-visit_if, length-visit_if) (omega (arith, length-visits es))

ones : (vs : List Visit) → sum (map (λ _. 1) vs) ≡ length vs
unfolding sum
ones [] = refl
ones (v ∷ vs) = omega (arith, ones vs)

module _ (py : Runtime) (addresses : Addresses) where
  open py use {Float}

  abbrev total : Dict String (ActorProfile Float) → ℕ
  total d = sum (map (λ a. a.total_events) (values d))

  total-observed : (es : List Event) → total (observed py addresses es) ≡ sum (map sides es)
  unfolding observed new_actor apply_visit values sum
  total-observed es = omega (
    arith,
    sum-group (λ v. some v.ip) (λ v. new_actor py addresses v.ip) (apply_visit py addresses)
        (λ a. a.total_events) (λ _. 1) (λ v. refl) (λ v a. refl) (visits es) [],
    ones (visits es),
    length-visits es,
  )

  total-blame :
      (f : RiskFinding Float) (ips : List String) (d : Dict String (ActorProfile Float))
      → total (blame py addresses f ips d) ≡ total d
  unfolding blame new_actor apply_finding
  total-blame f [] d = refl
  total-blame f (ip ∷ ips) d = omega (
    arith,
    total-blame f ips (upsert ip (new_actor py addresses ip) (apply_finding py addresses f) d),
    sum-upsert (λ a. a.total_events) 0 ip (new_actor py addresses ip) (apply_finding py addresses f)
        d refl (λ a. omega arith),
  )

  total-blame_all :
      (grouped : Dict String (List Event)) (fs : List (RiskFinding Float))
      (d : Dict String (ActorProfile Float))
      → total (blame_all py addresses grouped fs d) ≡ total d
  unfolding blame_all
  total-blame_all grouped [] d = refl
  total-blame_all grouped (f ∷ fs) d =
      let ips = finding_actor_ips py addresses f (get_or (lookup f.session_key grouped) []) in
      total-blame_all grouped fs (blame py addresses f ips d) ∙ total-blame f ips d

  -- Over all actors, the events add up to one for each event with a source and one more for each
  -- event with another address as its destination; findings add none.
  pub total_events-correlate_actors :
      (es : List Event) (fs : List (RiskFinding Float))
      → sum (map (λ a. a.total_events) (correlate_actors py addresses es fs)) ≡ sum (map sides es)
  unfolding correlate_actors
  total_events-correlate_actors es fs =
      sum-sorted (not_below py addresses) (λ a. a.total_events)
        (values (blame_all py addresses (events_by_session es) fs (observed py addresses es)))
      ∙ total-blame_all (events_by_session es) fs (observed py addresses es)
      ∙ total-observed es
