-- ===== src/Export/Marked.antt =====
-- src/honeypot_ai/wazuh.py and src/honeypot_ai/realtime.py: the mark of the records for Wazuh.
use nsf_research_open_siem.Base.{
  String, Bool, true, false, not, ◌&&◌, List, [], ◌∷◌, Option, none, some, ◌==◌, ◌≡◌, refl, ◌∙◌,
  string_eq, if◌then◌else◌, arith, inl, inr, Bool-cases,
}
use nsf_research_open_siem.Models.{
  Value, null, bool, int, float, str, list, obj, Fields, end, field, find, get,
}
use nsf_research_open_siem.Runtime.{Runtime}
use nsf_research_open_siem.Realtime.Validate.{is_ours}
use nsf_research_open_siem.Export.Records.{set_field, has_key, get-set_field}
use nsf_research_open_siem.Export.Wazuh.{
  field_name, copy_alias, copy_aliases, timestamp_of, extra_from, add_extra_fields, add_row,
  start_event, wazuh_event, effective_kind, extra_field, extra_of, extra_keys, add_time, time_keys,
}

-- The record has the mark that the stream asks for.
abbrev pub IsMarked : Fields → Type 0
IsMarked d = get "integration" d ≡ str "honeypot-ai"

abbrev Other : String → Type 0
Other k = ("integration" == k) ≡ false

set_field-IsMarked :
    (k : String) (v : Value) (d : Fields) → Other k → IsMarked d → IsMarked (set_field k v d)
set_field-IsMarked k v d o h = get-set_field "integration" k v d ∙ (rw o h)

pick : (P : String → Type 0) (b : Bool) (x y : String) → P x → P y → P (if b then x else y)
pick P true x y p q = p
pick P false x y p q = q

field_name-Other : (kind key : String) → Other key → Other (field_name kind key)
unfolding field_name string_eq
field_name-Other kind key o = pick Other (kind == "ioc" && key == "kind") "ioc_kind" _ refl (
    pick Other (kind == "ioc" && key == "value") "ioc_value" _ refl (
      pick Other (kind == "event" && key == "source") "event_source" _ refl
        (pick Other (kind == "ebpf_event" && key == "source") "event_source" key refl o)))

copy_alias-IsMarked :
    (name alias : String) (d : Fields)
    → Other alias
    → IsMarked d
    → IsMarked (copy_alias name alias d)
unfolding copy_alias
copy_alias-IsMarked name alias d o h = elim (Bool-cases (has_key name d && not (has_key alias d))) [
  | inl t ↦ rw t (set_field-IsMarked alias (get name d) d o h)
  | inr f ↦ rw f h
]

copy_aliases-IsMarked : (d : Fields) → IsMarked d → IsMarked (copy_aliases d)
unfolding copy_aliases string_eq
copy_aliases-IsMarked d h =
    let d1 = copy_alias "ioc_value" "indicator" d in
    let d2 = copy_alias "ip" "src_ip" d1 in
    copy_alias-IsMarked "endpoint" "host_endpoint" d2 refl (
      copy_alias-IsMarked "ip" "src_ip" d1 refl
        (copy_alias-IsMarked "ioc_value" "indicator" d refl h))

module _ (py : Runtime) (dumps : Fields → String) where
  add_row-IsMarked :
      (kind : String) (row d : Fields)
      → has_key "integration" row ≡ false
      → IsMarked d
      → IsMarked (add_row py dumps kind row d)
  unfolding add_row has_key
  add_row-IsMarked kind end d o h = h
  add_row-IsMarked kind (field k v row) d o h =
      add_row-IsMarked kind row _ (ground (arith, o))
        (set_field-IsMarked (field_name kind k) _ d (field_name-Other kind k (ground (arith, o))) h)

  extra_field-IsMarked :
      (k : String) (v : Value) (d : Fields)
      → Other k
      → IsMarked d
      → IsMarked (extra_field py dumps k v d)
  extra_field-IsMarked k null d o h = h
  extra_field-IsMarked k (bool b) d o h = set_field-IsMarked k _ d o h
  extra_field-IsMarked k (int n) d o h = set_field-IsMarked k _ d o h
  extra_field-IsMarked k (float x) d o h = set_field-IsMarked k _ d o h
  extra_field-IsMarked k (str s) d o h = set_field-IsMarked k _ d o h
  extra_field-IsMarked k (list vs) d o h = set_field-IsMarked k _ d o h
  extra_field-IsMarked k (obj fs) d o h = set_field-IsMarked k _ d o h

  abbrev Others : List String → Type 0
  Others [] = Unit
  Others (k ∷ ks) = Other k × Others ks

  extra_from-IsMarked :
      (ks : List String) (raw d : Fields)
      → Others ks
      → IsMarked d
      → IsMarked (extra_from py dumps ks raw d)
  unfolding extra_from
  extra_from-IsMarked [] raw d o h = h
  extra_from-IsMarked (k ∷ ks) raw d o h =
      extra_from-IsMarked ks raw _ o.1 (extra_field-IsMarked k (get k raw) d o.0 h)

  extra_of-IsMarked : (v : Value) (d : Fields) → IsMarked d → IsMarked (extra_of py dumps v d)
  unfolding string_eq
  extra_of-IsMarked null d h = h
  extra_of-IsMarked (bool b) d h = h
  extra_of-IsMarked (int n) d h = h
  extra_of-IsMarked (float x) d h = h
  extra_of-IsMarked (str s) d h = h
  extra_of-IsMarked (list vs) d h = h
  extra_of-IsMarked (obj raw) d h =
      extra_from-IsMarked (extra_keys py dumps) raw d
        (refl, (refl, (refl, (refl, (refl, (refl, (refl, tt))))))) h

  add_extra_fields-IsMarked :
      (kind : String) (row d : Fields)
      → IsMarked d
      → IsMarked (add_extra_fields py dumps kind row d)
  unfolding add_extra_fields
  add_extra_fields-IsMarked kind row d h = elim (Bool-cases (kind == "ebpf_event")) [
    | inl t ↦ rw t (extra_of-IsMarked (get "raw" row) d h)
    | inr f ↦ rw f h
  ]

  add_time-IsMarked :
      (t : Option String) (d : Fields) → IsMarked d → IsMarked (add_time py dumps t d)
  unfolding string_eq
  add_time-IsMarked none d h = h
  add_time-IsMarked (some t) d h = set_field-IsMarked "timestamp" (str t) d refl h

  start-IsMarked : (kind : String) (row : Fields) → IsMarked (start_event py dumps kind row)
  unfolding get find string_eq
  start-IsMarked kind row = refl

  -- The record of a row without a field `integration` has the mark that `_validate_wazuh_lines` asks
  -- for, whatever the row's other fields, its kind and its raw record are.
  pub wazuh_event-IsMarked :
      (kind : String) (row : Fields)
      → has_key "integration" row ≡ false
      → is_ours (get "integration" (wazuh_event py dumps kind row)) ≡ true
  unfolding wazuh_event is_ours string_eq
  wazuh_event-IsMarked kind row o =
      let k = effective_kind py dumps kind row in
      let d1 =
        add_time py dumps (timestamp_of (time_keys py dumps) row) (start_event py dumps k row) in
      let d2 = add_extra_fields py dumps k row d1 in
      let marked = copy_aliases-IsMarked (add_row py dumps k row d2) (
        add_row-IsMarked k row d2 o (
          add_extra_fields-IsMarked k row d1 (
            add_time-IsMarked (timestamp_of (time_keys py dumps) row) (start_event py dumps k row)
              (start-IsMarked k row)))) in
      rw marked refl
