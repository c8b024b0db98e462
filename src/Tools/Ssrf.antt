-- ===== src/Tools/Ssrf.antt =====
-- services/agent-runtime/internal/tools/http_skill.go: the guards that keep the calls of a skill away from
-- the network of the runtime. Addresses are those of `net/netip`, hosts those of `net/url`.
use nice_agent.Prelude.{
  String, Bool, ◌||◌, ◌&&◌, not, Option, none, some, List, [], ◌∷◌, ◌==◌, if◌then◌else◌,
}

-- `net/netip`, `net/url` and the resolver. An address that `LookupIPAddr` returns need not be valid.
pub record Net (A : Type 0) : Type 0 where
  pub parse_addr : String → Option A
  pub text : A → String
  pub is_4_in_6 : A → Bool
  pub unmap : A → A
  pub is_loopback : A → Bool
  pub is_link_local_unicast : A → Bool
  pub is_private : A → Bool
  pub is_unspecified : A → Bool
  pub is_multicast : A → Bool
  pub host_name : String → Option String
  pub lower_host : String → String
  pub ends_with : String → String → Bool
  pub resolve : String → Option (List (Option A))

unfoldable pub is_metadata_host : String → Bool
is_metadata_host host =
    host == "169.254.169.254"
    || host == "metadata.google.internal"
    || host == "metadata.aliyun.com"
    || host == "100.100.100.200"

-- The result of a guard: `passed`, or the reason of the refusal.
pub data Guard : Type 0 where
  passed invalid_url host_required host_not_allowed metadata_host metadata_address : Guard
  private_address not_resolved no_addresses invalid_address : Guard

pub data Dial (A : Type 0) : Type 0 where
  dialed : A → Dial A
  refused : Guard → Dial A

module _ {A : Type 0} (net : Net A) where
  abbrev metadata_text : String → Bool
  metadata_text s = s == "169.254.169.254" || s == "100.100.100.200"

  -- The address itself, or the IPv4 address that it stands for; `Unmap` returns one that stands for
  -- itself.
  abbrev plain : A → A
  plain a = if net.is_4_in_6 a then net.unmap a else a

  unfoldable pub is_metadata_addr : A → Bool
  is_metadata_addr a = metadata_text (net.text (plain a))

  unfoldable pub is_public_addr : A → Bool
  is_public_addr a =
      let b = plain a in
      not (metadata_text (net.text b))
      && not (
          net.is_loopback b
          || net.is_link_local_unicast b
          || net.is_private b
          || net.is_unspecified b
          || net.is_multicast b)

  -- `isMetadataAddr(addr) || (!allowLocal && !isPublicAddr(addr))`
  unfoldable pub is_blocked : Bool → A → Bool
  is_blocked allow_local a = is_metadata_addr a || (not allow_local && not (is_public_addr a))

  -- The check of a host that is an address.
  abbrev address_guard : Bool → Option A → Guard
  address_guard allow_local none = passed
  address_guard allow_local (some a) =
      if is_metadata_addr a
      then metadata_address
      else if not allow_local && not (is_public_addr a)
      then private_address
      else passed

  unfoldable pub reject_unsafe_host : Bool → String → Guard
  reject_unsafe_host allow_local host =
      if host == ""
      then host_required
      else if not allow_local
          && (host == "localhost" || net.ends_with ".localhost" host || net.ends_with ".local" host)
      then host_not_allowed
      else if is_metadata_host host
      then metadata_host
      else address_guard allow_local (net.parse_addr host)

  unfoldable pub reject_unsafe_http_url : Bool → String → Guard
  reject_unsafe_http_url allow_local raw = elim (net.host_name raw) [
    | none ↦ invalid_url
    | some host ↦ reject_unsafe_host allow_local (net.lower_host host)
  ]

  -- The loop over the resolved addresses: each has to pass.
  unfoldable pub all_resolved : Bool → List (Option A) → Guard
  all_resolved allow_local [] = passed
  all_resolved allow_local (none ∷ addrs) = invalid_address
  all_resolved allow_local (some a ∷ addrs) =
      let rest = all_resolved allow_local addrs in
      if is_metadata_addr a
      then metadata_address
      else if not allow_local && not (is_public_addr a)
      then private_address
      else rest

  abbrev resolved_guard : Bool → Option (List (Option A)) → Guard
  resolved_guard allow_local none = not_resolved
  resolved_guard allow_local (some []) = no_addresses
  resolved_guard allow_local (some (a ∷ addrs)) = all_resolved allow_local (a ∷ addrs)

  unfoldable pub reject_unsafe_resolved_host : Bool → String → Guard
  reject_unsafe_resolved_host allow_local host =
      if host == "" then host_required else elim (net.parse_addr host) [
        | some a ↦ passed
        | none ↦ resolved_guard allow_local (net.resolve host)
      ]

  unfoldable pub reject_unsafe_resolved_http_host : Bool → String → Guard
  reject_unsafe_resolved_http_host allow_local raw = elim (net.host_name raw) [
    | none ↦ invalid_url
    | some host ↦ reject_unsafe_resolved_host allow_local (net.lower_host host)
  ]

  -- The loop of the dialer: the first address that is not blocked.
  unfoldable pub dial_first : Bool → List (Option A) → Dial A
  dial_first allow_local [] = refused private_address
  dial_first allow_local (none ∷ addrs) = dial_first allow_local addrs
  dial_first allow_local (some a ∷ addrs) =
      let rest = dial_first allow_local addrs in if is_blocked allow_local a then rest else dialed a

  abbrev pub dial_resolved : Bool → Option (List (Option A)) → Dial A
  dial_resolved allow_local none = refused not_resolved
  dial_resolved allow_local (some []) = refused no_addresses
  dial_resolved allow_local (some (a ∷ addrs)) = dial_first allow_local (a ∷ addrs)

  -- `DialContext` for a host without its port; the address that it connects to.
  unfoldable pub dial_context : Bool → String → Dial A
  dial_context allow_local host = elim (net.parse_addr (net.lower_host host)) [
    | some a ↦
        if is_metadata_addr a
        then refused metadata_address
        else if not allow_local && not (is_public_addr a)
        then refused private_address
        else dialed a
    | none ↦ dial_resolved allow_local (net.resolve (net.lower_host host))
  ]
