-- ===== src/Endpoint/Roles.antt =====
-- src/honeypot_ai/endpoint.py, `_select_endpoint`: which endpoint is chosen, and its role.
use nsf_research_open_siem.Base.{
  String, true, false, ◌≡◌, ◌⊎◌, ◌↔◌, ◌&&◌, List, Option, none, some, string_eq, arith,
}
use nsf_research_open_siem.Base.Text.{truthy, or_text}
use nsf_research_open_siem.Runtime.{Addresses}
use nsf_research_open_siem.Endpoint.Select.{
  in_networks, is_likely_internal, select_protected, select_likely,
}

module _ (ip : Addresses) (src dest : Option String) where
  -- With protected networks the endpoint is an address of the packet inside them, and its role says
  -- on which side it stands and where the other side is.
  pub select_protected_lem :
      (ns : List ip.Network) (endpoint role : String)
      → select_protected ip src dest ns ≡ some (endpoint, role)
      → ((role ≡ "internal")
          × (src ≡ some endpoint)
          × (in_networks ip src ns ≡ true)
          × (in_networks ip dest ns ≡ true))
        ⊎ ((role ≡ "outbound")
            × (src ≡ some endpoint)
            × (in_networks ip src ns ≡ true)
            × (in_networks ip dest ns ≡ false))
        ⊎ ((role ≡ "inbound")
            × (dest ≡ some endpoint)
            × (in_networks ip src ns ≡ false)
            × (in_networks ip dest ns ≡ true))
  unfolding select_protected in_networks
  select_protected_lem ns endpoint role h = ground arith

  -- With protected networks, nothing is chosen exactly when neither address is inside them.
  pub select_protected-eq-none_iff :
      (ns : List ip.Network)
      → (select_protected ip src dest ns ≡ none)
        ↔ ((in_networks ip src ns ≡ false) × (in_networks ip dest ns ≡ false))
  unfolding select_protected in_networks
  select_protected-eq-none_iff ns = ground arith

  -- Without protected networks, a choice is the destination as inbound, if it is internal or the
  -- source is not; or an internal source as outbound; or a source, as unknown, where there is no
  -- destination.
  pub select_likely_lem :
      (endpoint role : String)
      → select_likely ip src dest ≡ some (endpoint, role)
      → ((role ≡ "inbound")
          × (dest ≡ some endpoint)
          × ((is_likely_internal ip endpoint ≡ true)
              ⊎ (truthy src && is_likely_internal ip (or_text src "") ≡ false)))
        ⊎ ((role ≡ "outbound") × (src ≡ some endpoint) × (is_likely_internal ip endpoint ≡ true))
        ⊎ ((role ≡ "unknown") × (src ≡ some endpoint) × (truthy dest ≡ false))
  unfolding select_likely
  select_likely_lem endpoint role h = ground arith
