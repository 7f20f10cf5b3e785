-- ===== src/Endpoint/Select.antt =====
-- src/honeypot_ai/endpoint.py: whose window an event or a packet belongs to.
use nsf_research_open_siem.Base.{
  String, Bool, false, not, ◌&&◌, ◌||◌, List, [], ◌∷◌, Option, none, some, ◌==◌, string_eq,
  if◌then◌else◌,
}
use nsf_research_open_siem.Base.Result.{Result, ok, raise, ◌>>=◌}
use nsf_research_open_siem.Base.Text.{truthy, or_text}
use nsf_research_open_siem.Models.{Event, Value, null, get, find}
use nsf_research_open_siem.Runtime.{Runtime, Addresses}

-- What building windows may raise: a text that is no network, a length that is not positive, a time
-- outside the years 1 to 9999, or `int()` of an infinity or of NaN.
pub data WindowError : Type 0 where
  bad_network : String → WindowError
  bad_window_seconds : WindowError
  bad_time : WindowError
  bad_number : WindowError

-- An endpoint and its role.
abbrev pub Selected : Type 0
Selected = Option (String × String)

module _ (py : Runtime) where
  open py use {str_of}

  abbrev pub text_unless_null : Value → Option String
  text_unless_null null = none
  text_unless_null v = some (str_of v)

  -- `_raw_string`
  unfoldable pub raw_string : Event → String → Option String
  unfolding get find
  raw_string e key = text_unless_null (get key e.raw)

module _ (ip : Addresses) where
  open ip use {
    Address, Network, ip_address, ip_network, in_network, is_private, is_loopback, is_link_local,
  }

  abbrev pub or_bad_network : String → Option Network → Result WindowError Network
  or_bad_network v none = raise (bad_network v)
  or_bad_network v (some n) = ok n

  unfoldable pub parse_networks : List String → Result WindowError (List Network)
  parse_networks [] = ok []
  parse_networks (v ∷ vs) =
      if v == ""
      then parse_networks vs
      else do n ← or_bad_network v (ip_network v); ns ← parse_networks vs; ok (n ∷ ns)

  unfoldable pub any_network : Address → List Network → Bool
  any_network a [] = false
  any_network a (n ∷ ns) = in_network a n || any_network a ns

  abbrev pub address_in : Option Address → List Network → Bool
  address_in none ns = false
  address_in (some a) ns = any_network a ns

  -- `_in_networks`
  unfoldable pub in_networks : Option String → List Network → Bool
  in_networks value ns =
      if truthy value then address_in (ip_address (or_text value "")) ns else false

  abbrev pub internal_address : Option Address → Bool
  internal_address none = false
  internal_address (some a) = is_private a || is_loopback a || is_link_local a

  unfoldable pub is_likely_internal : String → Bool
  is_likely_internal value = internal_address (ip_address value)

  unfoldable pub select_protected : Option String → Option String → List Network → Selected
  select_protected src dest ns =
      let src_protected = in_networks src ns in
      let dest_protected = in_networks dest ns in
      if src_protected && dest_protected && truthy src
      then some (or_text src "", "internal")
      else if src_protected && truthy src
      then some (or_text src "", "outbound")
      else if dest_protected && truthy dest
      then some (or_text dest "", "inbound")
      else none

  unfoldable pub select_likely : Option String → Option String → Selected
  select_likely src dest =
      if truthy dest && is_likely_internal (or_text dest "")
      then some (or_text dest "", "inbound")
      else if truthy src && is_likely_internal (or_text src "")
      then some (or_text src "", "outbound")
      else if truthy dest
      then some (or_text dest "", "inbound")
      else if truthy src
      then some (or_text src "", "unknown")
      else none

  unfoldable pub select_endpoint : Option String → Option String → List Network → Selected
  select_endpoint src dest [] = select_likely src dest
  select_endpoint src dest (n ∷ ns) = select_protected src dest (n ∷ ns)

  module _ (py : Runtime) where
    unfoldable pub select_host : Event → Option String → Selected
    select_host e host =
        if e.source == "ebpf" && truthy host
        then some (
          or_text host "",
          if truthy e.dest_ip && not (truthy e.src_ip) then "outbound" else "host",
        )
        else none

    abbrev pub or_selected : Selected → Selected → Selected
    or_selected none t = t
    or_selected (some s) t = some s

    unfoldable pub select_event_endpoint : Event → List Network → Selected
    select_event_endpoint e ns =
        or_selected (select_endpoint e.src_ip e.dest_ip ns) (select_host e (raw_string py e "host"))
