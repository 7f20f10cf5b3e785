-- ===== src/Endpoint/Ebpf.antt =====
-- src/honeypot_ai/endpoint.py: what the names of programs and files say about an eBPF event.
use nsf_research_open_siem.Base.{
  String, Bool, true, false, not, ◌||◌, List, [], ◌∷◌, Option, ◌==◌, string_eq, if◌then◌else◌,
  contains, ◌<>◌,
}
use nsf_research_open_siem.Base.Text.{
  is_in, any_in, truthy, or_text, starts_with, starts_with_any, ends_with_any,
}
use nsf_research_open_siem.Runtime.{Runtime}
use nsf_research_open_siem.Mitre.{download_tokens, any_lower_in}

-- `s.rsplit("/", 1)[-1]`
unfoldable pub base_name : String → String
unfolding is_in
base_name String.[] = ""
base_name (String.◌∷◌ c s) =
    if is_in "/" s then base_name s else if String.◌∷◌ c "" == "/" then s else String.◌∷◌ c s

abbrev pub shell_names : List String
shell_names = "sh" ∷ "bash" ∷ "dash" ∷ "zsh" ∷ "ksh" ∷ []

abbrev pub runtimes : List String
runtimes = "python" ∷ "python3" ∷ "perl" ∷ "php" ∷ "ruby" ∷ "node" ∷ "lua" ∷ []

abbrev pub download_tools : List String
download_tools = "curl" ∷ "wget" ∷ "fetch" ∷ "ftp" ∷ "tftp" ∷ []

abbrev pub loopback_markers : List String
loopback_markers = "127.0.0.1" ∷ "::1" ∷ "[::1]" ∷ "localhost" ∷ []

abbrev pub container_runtime_comms : List String
container_runtime_comms = "runc" ∷ "containerd" ∷ "dockerd" ∷ "docker-proxy" ∷ []

abbrev pub sensitive_prefixes : List String
sensitive_prefixes =
    "/etc/" ∷ "/root/.ssh/" ∷ "/var/www/" ∷ "/usr/local/bin/" ∷ "/bin/" ∷ "/usr/bin/" ∷ []

abbrev pub home_sensitive_markers : List String
home_sensitive_markers = "/.ssh/" ∷ "/.config/systemd/user/" ∷ "/.config/autostart/" ∷ []

abbrev pub home_sensitive_suffixes : List String
home_sensitive_suffixes =
    "/.bashrc" ∷ "/.bash_profile" ∷ "/.profile" ∷ "/.zshrc" ∷ "/.zprofile" ∷ "/.kshrc" ∷ []

unfoldable pub is_temp_path : String → Bool
unfolding starts_with_any
is_temp_path path = starts_with_any path ("/tmp/" ∷ "/var/tmp/" ∷ "/dev/shm/" ∷ [])

-- `any(f"{runtime} " in command for runtime in runtimes)`
unfoldable pub any_runtime : List String → String → Bool
unfolding is_in
any_runtime [] command = false
any_runtime (r ∷ rs) command = is_in (r <> " ") command || any_runtime rs command

module _ (py : Runtime) where
  open py use {lower}

  -- `(binary or "").rsplit("/", 1)[-1].lower()`
  unfoldable pub program_name : Option String → String
  unfolding base_name
  program_name binary = lower (base_name (or_text binary ""))

  unfoldable pub looks_like_shell : Option String → String → Bool
  unfolding any_in program_name
  looks_like_shell binary command =
      contains shell_names (program_name binary)
      || any_in ("/bin/sh" ∷ " bash" ∷ " sh " ∷ []) command

  unfoldable pub looks_like_script_runtime : Option String → String → Bool
  unfolding any_runtime program_name
  looks_like_script_runtime binary command =
      contains runtimes (program_name binary) || any_runtime runtimes command

  unfoldable pub looks_like_download_tool : Option String → String → Bool
  unfolding any_lower_in program_name
  looks_like_download_tool binary command =
      contains download_tools (program_name binary) || any_lower_in py download_tokens command

  unfoldable pub targets_loopback : String → Bool
  unfolding any_in
  targets_loopback command = any_in loopback_markers (lower command)

  unfoldable pub is_container_runtime : Option String → Bool
  unfolding starts_with
  is_container_runtime comm =
      if not (truthy comm)
      then false
      else if contains container_runtime_comms (lower (or_text comm ""))
      then true
      else starts_with (lower (or_text comm "")) "runc:"
        || starts_with (lower (or_text comm "")) "containerd-shim"

  unfoldable pub is_sensitive_path : String → Bool
  unfolding starts_with_any ends_with_any any_in
  is_sensitive_path path =
      let value = lower path in
      if starts_with_any value sensitive_prefixes
      then true
      else if not (starts_with_any value ("/home/" ∷ []))
      then false
      else any_in home_sensitive_markers value || ends_with_any value home_sensitive_suffixes
