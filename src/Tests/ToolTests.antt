-- ===== src/Tests/ToolTests.antt =====
-- The tools of an agent.
use nice_agent.Prelude.{String, true, false, none, some, refl, [], ◌∷◌, ◌==◌}
use nice_agent.Tools.Ssrf.{
  Net, dial_context, is_metadata_addr, is_public_addr, is_blocked, dial_first,
}
use nice_agent.Tools.Dial.{IsAllowed, dial_context-IsAllowed}

-- Addresses are texts; the host "rebind.example" has a private address and a public one.
abbrev net : Net String
net = record {
  parse_addr = λ host. elim (host == "rebind.example") [ true ↦ none | false ↦ some host ];
  text = λ a. a;
  is_4_in_6 = λ a. false;
  unmap = λ a. a;
  is_loopback = λ a. a == "127.0.0.1";
  is_link_local_unicast = λ a. false;
  is_private = λ a. a == "10.0.0.1";
  is_unspecified = λ a. false;
  is_multicast = λ a. false;
  host_name = λ raw. some raw;
  lower_host = λ host. host;
  ends_with = λ suffix host. false;
  resolve = λ host. some (some "10.0.0.1" ∷ some "93.184.216.34" ∷ []);
}

dial_context-IsAllowed_example : IsAllowed net false "93.184.216.34"
unfolding dial_context dial_first is_blocked is_metadata_addr is_public_addr
dial_context-IsAllowed_example = dial_context-IsAllowed net false "rebind.example" refl
