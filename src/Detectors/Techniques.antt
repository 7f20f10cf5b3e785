-- ===== src/Detectors/Techniques.antt =====
-- src/honeypot_ai/detectors.py: the events and the techniques of a session.
use mathlib.Core.List.{append-nil, append_assoc}
use mathlib.Core.Option.{get_or}
use nsf_research_open_siem.Base.{
  ◌≡◌, sym, ◌∙◌, ap, String, Bool, false, ◌||◌, List, [], ◌∷◌, ◌++◌, Option, none, some, arith,
  string_eq,
}
use nsf_research_open_siem.Base.Dict.{lookup, add, contains-add, update, Distinct, update-Distinct}
use nsf_research_open_siem.Base.Equality.{contains}
use nsf_research_open_siem.Base.Group.{grow, members, lookup-group}
use nsf_research_open_siem.Models.{Event}
use nsf_research_open_siem.Runtime.{Runtime}
use nsf_research_open_siem.Mitre.{map_event}
use nsf_research_open_siem.Features.Invariant.{key_of}
use nsf_research_open_siem.Detectors.Findings.{
  events_by_session, session_techniques, technique_loop,
}

append_all :
    (o : Option (List Event)) (xs : List Event)
    → get_or (grow (λ _. []) (λ e g. g ++ e ∷ []) o xs) [] ≡ get_or o [] ++ xs
unfolding grow
append_all o [] = sym (append-nil (get_or o []))
append_all o (x ∷ xs) =
    append_all (some (get_or o [] ++ x ∷ [])) xs ∙ append_assoc (get_or o []) (x ∷ []) xs

-- The events that are grouped under a key are the log's events of that session, in order.
pub lookup-events_by_session :
    (k : String) (es : List Event)
    → get_or (lookup k (events_by_session es)) [] ≡ members key_of k es
unfolding events_by_session lookup
lookup-events_by_session k es =
    ap (λ o. get_or o []) (lookup-group key_of (λ _. []) (λ e g. g ++ e ∷ []) k es [])
    ∙ append_all none (members key_of k es)

module _ (py : Runtime) where
  open py use {Float, float_le, quarters, of_int}

  unfoldable pub any_maps : String → List Event → Bool
  any_maps t [] = false
  any_maps t (e ∷ es) = contains (map_event py e) t || any_maps t es

  contains-update :
      (xs s : List String) (t : String) → contains (update xs s) t ≡ (contains s t || contains xs t)
  unfolding update
  contains-update [] s t = ground arith
  contains-update (x ∷ xs) s t = ground (arith, contains-update xs (add x s) t, contains-add x s t)

  contains-technique_loop :
      (es : List Event) (s : List String) (t : String)
      → contains (technique_loop py es s) t ≡ (contains s t || any_maps t es)
  unfolding technique_loop any_maps
  contains-technique_loop [] s t = ground arith
  contains-technique_loop (e ∷ es) s t = ground (
    arith,
    contains-technique_loop es (update (map_event py e) s) t,
    contains-update (map_event py e) s t,
  )

  technique_loop-Distinct :
      (es : List Event) (s : List String) → Distinct s → Distinct (technique_loop py es s)
  unfolding technique_loop
  technique_loop-Distinct [] s d = d
  technique_loop-Distinct (e ∷ es) s d =
      technique_loop-Distinct es _ (update-Distinct (map_event py e) s d)

  -- A session's techniques are those that some event of it shows, each once.
  pub session_techniques_lem :
      (es : List Event) (t : String)
      → Distinct (session_techniques py es)
        × (contains (session_techniques py es) t ≡ any_maps t es)
  unfolding session_techniques
  session_techniques_lem es t = (technique_loop-Distinct es [] tt, contains-technique_loop es [] t)
