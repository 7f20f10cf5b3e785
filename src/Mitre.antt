-- ===== src/Mitre.antt =====
-- src/honeypot_ai/mitre.py: which MITRE ATT&CK techniques one event shows.
pub mod Known
use nsf_research_open_siem.Base.{
  String, Bool, false, ◌&&◌, ◌||◌, List, [], ◌∷◌, ◌==◌, string_eq, if◌then◌else◌, Option, none,
  some,
}
use nsf_research_open_siem.Base.Dict.{Dict, add, lookup}
use nsf_research_open_siem.Base.Text.{is_in, any_in, truthy, or_text}
use nsf_research_open_siem.Models.{Event, Value, find, get, mapping}
use nsf_research_open_siem.Runtime.{Runtime}

abbrev pub download_tokens : List String
download_tokens = "wget " ∷ "curl " ∷ "tftp " ∷ "ftp " ∷ "scp " ∷ "sftp " ∷ "Invoke-WebRequest" ∷ []

abbrev pub reverse_shell_tokens : List String
reverse_shell_tokens = "/dev/tcp/" ∷ "bash -i" ∷ "sh -i" ∷ "nc -e" ∷ "ncat -e" ∷ "mkfifo" ∷ []

abbrev pub persistence_tokens : List String
persistence_tokens =
    "crontab" ∷ "/etc/cron" ∷ "systemctl enable" ∷ "rc.local" ∷ ".bashrc" ∷ ".profile" ∷ []

abbrev pub scanner_tokens : List String
scanner_tokens = "nmap " ∷ "masscan " ∷ "zmap " ∷ "hydra " ∷ "medusa " ∷ []

abbrev pub miner_tokens : List String
miner_tokens = "xmrig" ∷ "cpuminer" ∷ "stratum+tcp" ∷ "miningpool" ∷ "monero" ∷ []

abbrev pub techniques : Dict String String
techniques =
    ("T1046", "Network Service Discovery")
    ∷ ("T1053.003", "Scheduled Task/Job: Cron")
    ∷ ("T1059.004", "Command and Scripting Interpreter: Unix Shell")
    ∷ ("T1105", "Ingress Tool Transfer")
    ∷ ("T1110", "Brute Force")
    ∷ ("T1496", "Resource Hijacking")
    ∷ []

abbrev or_key : Option String → String → String
or_key none t = t
or_key (some name) t = name

-- `TECHNIQUES.get(technique_id, technique_id)`
unfoldable pub describe : String → String
unfolding lookup
describe t = or_key (lookup t techniques) t

-- `if test: techniques[t] = None`
unfoldable pub mark : Bool → String → List String → List String
unfolding add
mark test t ts = if test then add t ts else ts

module _ (py : Runtime) where
  open py use {lower, str_of}

  -- `any(token.lower() in s for token in tokens)`
  unfoldable pub any_lower_in : List String → String → Bool
  unfolding is_in
  any_lower_in [] s = false
  any_lower_in (t ∷ ts) s = is_in (lower t) s || any_lower_in ts s

  text_or_empty : Option Value → String
  text_or_empty none = ""
  text_or_empty (some v) = str_of v

  -- `str(alert.get(key, "")).lower()`
  unfoldable pub alert_text : String → Event → String
  unfolding text_or_empty get find
  alert_text key e = lower (text_or_empty (find key (mapping (get "alert" e.raw))))

  unfoldable pub login_failed : Event → Bool
  unfolding is_in
  login_failed e = e.source == "cowrie" && is_in "login.failed" (lower e.event_type)

  unfoldable pub malware_alert : Event → Bool
  unfolding alert_text is_in
  malware_alert e =
      is_in "malware" (alert_text "category" e)
      || is_in "command and control" (alert_text "category" e)
      || is_in "c2" (alert_text "signature" e)

  unfoldable pub map_event : Event → List String
  unfolding any_in any_lower_in login_failed malware_alert
  map_event e =
      let command = lower (or_text e.command "") in
      let t1 = mark (login_failed e) "T1110" [] in
      let t2 = mark (e.source == "cowrie" && truthy e.command) "T1059.004" t1 in
      let t3 = mark (any_lower_in download_tokens command || truthy e.url) "T1105" t2 in
      let t4 = mark (any_in reverse_shell_tokens command) "T1059.004" t3 in
      let t5 = mark (any_in persistence_tokens command) "T1053.003" t4 in
      let t6 = mark (any_in scanner_tokens command) "T1046" t5 in
      let t7 = mark (any_in miner_tokens command) "T1496" t6 in mark (malware_alert e) "T1105" t7
