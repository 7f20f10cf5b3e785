-- ===== src/Realtime/Validate.antt =====
-- src/honeypot_ai/realtime.py, `_validate_wazuh_lines`.
use nsf_research_open_siem.Base.{
  ℕ, ◌+◌, String, ◌<>◌, Bool, false, List, [], ◌∷◌, ◌==◌, string_eq, if◌then◌else◌,
}
use nsf_research_open_siem.Base.Text.{show}
use nsf_research_open_siem.Base.Result.{Result, ok, raise, ◌>>=◌}
use nsf_research_open_siem.Models.{Value, str, obj, Fields, get}
use nsf_research_open_siem.Runtime.{Runtime}

-- `payload.get("integration") == "honeypot-ai"`
unfoldable pub is_ours : Value → Bool
unfolding string_eq
is_ours (str s) = s == "honeypot-ai"
is_ours v = false

-- `json.loads`, with the message of a JSONDecodeError, and `json.dumps(…, sort_keys=True)`
module _ (py : Runtime) (loads : String → Result String Value) (dumps : Fields → String) where
  open py use {strip}

  abbrev object_line : ℕ → Result String Value → Result String Fields
  object_line n (raise msg) = raise ("invalid Wazuh JSON on line " <> show n <> ": " <> msg)
  object_line n (ok (obj fs)) =
      if is_ours (get "integration" fs)
      then ok fs
      else raise ("Wazuh line " <> show n <> " is missing integration=honeypot-ai")
  object_line n (ok v) = raise ("Wazuh line " <> show n <> " did not contain a JSON object")

  -- The lines of the payload, from line `n` on.
  unfoldable pub validate_from : ℕ → List String → Result String (List String)
  unfolding is_ours get show string_eq
  validate_from n [] = ok []
  validate_from n (l ∷ ls) =
      let more = validate_from (n + 1) ls in
      if strip l == ""
      then more
      else do fs ← object_line n (loads l); rest ← more; ok (dumps fs ∷ rest)

  abbrev lines_text : List String → String
  lines_text [] = ""
  lines_text (l ∷ ls) = l <> "\n" <> lines_text ls

  abbrev joined : Result String (List String) → Result String String
  joined (ok ls) = ok (lines_text ls)
  joined (raise e) = raise e

  unfoldable pub validate_wazuh_lines : List String → Result String String
  unfolding validate_from
  validate_wazuh_lines ls = joined (validate_from 1 ls)
