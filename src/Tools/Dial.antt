-- ===== src/Tools/Dial.antt =====
-- The dialer of http_skill.go connects to no address that the guards would refuse.
use nice_agent.Prelude.{
  String, Bool, ◌||◌, true, false, Option, none, some, ◌≡◌, List, [], ◌∷◌, arith, Option-cases,
  Bool-cases, ap, subst, inl, inr,
}
use nice_agent.Tools.Ssrf.{
  Net, Dial, dialed, is_metadata_addr, is_public_addr, is_blocked, dial_first, dial_resolved,
  dial_context, refused,
}

address_of : {A : Type 0} → A → Dial A → A
address_of d (dialed a) = a
address_of d (refused g) = d

dialed-injective : {A : Type 0} {a b : A} → dialed a ≡ dialed b → a ≡ b
unfolding address_of
dialed-injective {a = a} q = ap (address_of a) q

module _ {A : Type 0} (net : Net A) (allow_local : Bool) where
  -- An address that may be called.
  pub record IsAllowed (a : A) : Type 0 where
    pub no_metadata : is_metadata_addr net a ≡ false
    pub public_or_local : (allow_local || is_public_addr net a) ≡ true

  IsAllowed-unblocked : (a : A) → is_blocked net allow_local a ≡ false → IsAllowed a
  unfolding is_blocked
  IsAllowed-unblocked a q = record { no_metadata = ground arith; public_or_local = ground arith }

  dial_first-IsAllowed :
      (addrs : List (Option A)) {a : A} → dial_first net allow_local addrs ≡ dialed a → IsAllowed a
  unfolding dial_first
  dial_first-IsAllowed [] q = ground arith
  dial_first-IsAllowed (none ∷ addrs) q = dial_first-IsAllowed addrs q
  dial_first-IsAllowed (some b ∷ addrs) {a} q = elim (Bool-cases (is_blocked net allow_local b)) [
    | inl blocked ↦ dial_first-IsAllowed addrs (ground arith)
    | inr free ↦ subst IsAllowed (dialed-injective (ground arith)) (IsAllowed-unblocked b free)
  ]

  dial_resolved-IsAllowed :
      (answer : Option (List (Option A))) {a : A}
      → dial_resolved net allow_local answer ≡ dialed a
      → IsAllowed a
  dial_resolved-IsAllowed none q = ground arith
  dial_resolved-IsAllowed (some []) q = ground arith
  dial_resolved-IsAllowed (some (b ∷ addrs)) q = dial_first-IsAllowed (b ∷ addrs) q

  -- The dialer connects to no metadata address, and where local addresses are not allowed, only to
  -- public ones: whatever host the request names, however it is redirected, and whatever the resolver
  -- answers at the moment of the call.
  pub dial_context-IsAllowed :
      (host : String) {a : A} → dial_context net allow_local host ≡ dialed a → IsAllowed a
  unfolding dial_context
  dial_context-IsAllowed host {a} q = elim (Option-cases (net.parse_addr (net.lower_host host))) [
    | inl named ↦ dial_resolved-IsAllowed (net.resolve (net.lower_host host)) (ground arith)
    | inr (b, literal) ↦
        subst IsAllowed (dialed-injective {a = b} (ground arith))
          (record { no_metadata = ground arith; public_or_local = ground arith })
  ]
