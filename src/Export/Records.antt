-- ===== src/Export/Records.antt =====
-- Dicts of JSON values that the exporters fill, and the texts of their values.
use nsf_research_open_siem.Base.{
  String, Bool, false, ◌||◌, ◌==◌, ◌≡◌, string_eq, if◌then◌else◌, arith,
}
use nsf_research_open_siem.Models.{Value, Fields, end, field, find, get}

-- `d[k] = v`
unfoldable pub set_field : String → Value → Fields → Fields
unfolding string_eq
set_field k v end = field k v end
set_field k v (field j w fs) = if k == j then field j v fs else field j w (set_field k v fs)

-- `k in d`
unfoldable pub has_key : String → Fields → Bool
unfolding string_eq
has_key k end = false
has_key k (field j v fs) = k == j || has_key k fs

pub get-set_field :
    (j k : String) (v : Value) (fs : Fields)
    → get j (set_field k v fs) ≡ (if j == k then v else get j fs)
unfolding get find set_field
get-set_field j k v end = ground arith
get-set_field j k v (field i w fs) = ground (arith, get-set_field j k v fs)
