-- ===== src/Realtime/Offsets.antt =====
-- src/honeypot_ai/realtime.py, `_load_offsets` and `_save_offsets`: the offsets in the state file.
use Prim.Native.String.{compare}
use Prim.Native.Nat.{Ordering}
use nsf_research_open_siem.Base.{
  ℤ, String, ◌<>◌, Bool, true, false, [], ◌∷◌, Option, none, some, string_eq,
}
use nsf_research_open_siem.Base.Dict.{Dict, insert}
use nsf_research_open_siem.Base.Sort.{sorted}
use nsf_research_open_siem.Models.{Value, int, obj, Fields, end, field}
use nsf_research_open_siem.Runtime.{Runtime}

-- The order of the items; the keys of a dict differ.
abbrev pub key_before : String × ℤ → String × ℤ → Bool
key_before a b = elim (compare a.0 b.0) [ Ordering.gt ↦ false | _ ↦ true ]

unfoldable pub offset_fields : Dict String ℤ → Fields
offset_fields [] = end
offset_fields ((k, n) ∷ d) = field k (int n) (offset_fields d)

-- `json.dumps(…, indent=2, sort_keys=True)` of the sorted dict, and the newline
module _ (dumps : Fields → String) where
  unfoldable pub save_offsets : Dict String ℤ → String
  unfolding offset_fields sorted
  save_offsets d = dumps (offset_fields (sorted key_before d)) <> "\n"

module _ (py : Runtime) where
  open py use {int_of}

  -- An item whose value is no number is passed over.
  abbrev pub set_offset : String → Option ℤ → Dict String ℤ → Dict String ℤ
  set_offset k none d = d
  set_offset k (some n) d = insert k n d

  unfoldable pub read_offsets : Fields → Dict String ℤ → Dict String ℤ
  unfolding insert string_eq
  read_offsets end d = d
  read_offsets (field k v fs) d = read_offsets fs (set_offset k (int_of v) d)

  -- `json.loads`, with `none` for what it does not read
  module _ (loads : String → Option Value) where
    abbrev from_payload : Option Value → Dict String ℤ
    from_payload (some (obj fs)) = read_offsets fs []
    from_payload v = []

    -- The file's text is `none` when it does not exist or cannot be read.
    unfoldable pub load_offsets : Option String → Dict String ℤ
    unfolding read_offsets
    load_offsets none = []
    load_offsets (some t) = from_payload (loads t)
