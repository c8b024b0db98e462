-- ===== src/Store/Invitations/Acceptance.antt =====
-- What an invitation gives to whom, and that it does so once.
use nice_agent.Prelude.{
  ℕ, ◌<◌, String, ◌≡◌, true, false, some, List, [], ◌∷◌, lookup, lookup-put_self, ◌==◌,
  if◌then◌else◌, trim_space, to_lower, Char, arith, eq_refl,
}
use nice_agent.Protocol.Invitation.{Invitation, InvitationInput, pending}
use nice_agent.Store.{Store, ok, err, invalid_input}
use nice_agent.Store.Members.{list_organization_roles, list_project_roles}
use nice_agent.Store.Invitations.{
  create_invitation, with_role, accepted_by, accept_found, accept_invitation,
}

-- The invitation that a call has accepted.
accept-found :
    (lower : Char → Char) (now : ℕ) (token user_id email name : String) (s : Store) {r : Invitation}
    → (accept_invitation lower now token user_id email name s).0 ≡ ok r
    → (i : Invitation) × (lookup (trim_space token) s.invitations ≡ some i)
      × (i.status ≡ pending)
      × (now < i.expires_at)
      × ((to_lower lower (trim_space email) == i.email) ≡ true)
      × (lookup
            (trim_space token)
            (accept_invitation lower now token user_id email name s).1.invitations
          ≡ some (accepted_by now (trim_space user_id) i))
unfolding accept_invitation accept_found
accept-found lower now token user_id email name s h = grind (arith, lookup-put_self)

-- An invitation that is accepted already is not accepted again.
accept_refused :
    (lower : Char → Char) (now later : ℕ) (token who user_id email name : String) (s : Store)
    (i : Invitation)
    → lookup (trim_space token) s.invitations ≡ some (accepted_by now who i)
    → accept_invitation lower later token user_id email name s ≡ (err invalid_input, s)
unfolding accept_invitation accept_found
accept_refused lower now later token who user_id email name s i kept = grind arith

-- An invitation is accepted once: after an acceptance has succeeded, every further one with the same
-- token, by whomever, is refused as invalid input and changes nothing.
pub accept-accept :
    (lower : Char → Char) (now later : ℕ) (token user_id email name user_id' email' name' : String)
    (s : Store) {r : Invitation}
    → (accept_invitation lower now token user_id email name s).0 ≡ ok r
    → accept_invitation lower later token user_id' email' name'
        (accept_invitation lower now token user_id email name s).1
      ≡ (err invalid_input, (accept_invitation lower now token user_id email name s).1)
accept-accept lower now later token user_id email name user_id' email' name' s h =
    let (i, found, st, before, same, kept) = accept-found lower now token user_id email name s h in
    accept_refused lower now later token (trim_space user_id) user_id' email' name' _ i kept

-- The roles that the acceptance of `i` gives to `user_id`: those in its project, or else in its
-- organization.
abbrev pub given_roles : String → Invitation → Store → List String
given_roles user_id i s =
    if i.project_id == ""
    then list_organization_roles user_id i.organization_id s
    else list_project_roles user_id i.project_id s

with_role-given :
    (user_id : String) (i : Invitation) (s : Store)
    → given_roles user_id i (with_role user_id i s) ≡ i.role ∷ []
unfolding with_role list_organization_roles list_project_roles
with_role-given user_id i s = grind (arith, lookup-put_self)

roles-accept_found :
    (now : ℕ) (token user_id email name : String) (i : Invitation) (s : Store) {r : Invitation}
    → (accept_found now token user_id email name i s).0 ≡ ok r
    → given_roles user_id i (accept_found now token user_id email name i s).1 ≡ i.role ∷ []
unfolding accept_found with_role list_organization_roles list_project_roles
roles-accept_found now token user_id email name i s h = grind (arith, lookup-put_self)

accept-eq-found :
    (lower : Char → Char) (now : ℕ) (token user_id email name : String) (s : Store)
    {r i : Invitation}
    → (accept_invitation lower now token user_id email name s).0 ≡ ok r
    → lookup (trim_space token) s.invitations ≡ some i
    → accept_invitation lower now token user_id email name s
      ≡ accept_found now
          (trim_space token)
          (trim_space user_id)
          (to_lower lower (trim_space email))
          name
          i
          s
unfolding accept_invitation
accept-eq-found lower now token user_id email name s h e = ground arith

-- Who accepts, and what it gives: an acceptance succeeds only with the token of a pending invitation
-- that has not expired, by the invited address, and then the user's roles, in the invitation's project
-- or, where it has none, in its organization, are exactly the invitation's role.
pub accept-given :
    (lower : Char → Char) (now : ℕ) (token user_id email name : String) (s : Store) {r : Invitation}
    → (accept_invitation lower now token user_id email name s).0 ≡ ok r
    → (i : Invitation) × (lookup (trim_space token) s.invitations ≡ some i)
      × (i.status ≡ pending)
      × (now < i.expires_at)
      × ((to_lower lower (trim_space email) == i.email) ≡ true)
      × (given_roles
            (trim_space user_id)
            i
            (accept_invitation lower now token user_id email name s).1
          ≡ i.role ∷ [])
accept-given lower now token user_id email name s {r} h =
    let (i, found, st, before, same, kept) = accept-found lower now token user_id email name s h in
    (i, found, st, before, same, given i found)
  where
    given :
        (i : Invitation)
        → lookup (trim_space token) s.invitations ≡ some i
        → given_roles
            (trim_space user_id)
            i
            (accept_invitation lower now token user_id email name s).1
          ≡ i.role ∷ []
    given i found =
        let q = accept-eq-found lower now token user_id email name s h found in
        rw q (
          roles-accept_found now (trim_space token) (trim_space user_id)
            (to_lower lower (trim_space email)) name i s {r = r} (rw (← q) h))

create-found :
    (lower : Char → Char) (now : ℕ) (new_id token org_id by : String) (input : InvitationInput)
    (s : Store) {i : Invitation}
    → (create_invitation lower now new_id token org_id by input s).0 ≡ ok i
    → (lookup token (create_invitation lower now new_id token org_id by input s).1.invitations
        ≡ some i)
      × (i.status ≡ pending)
      × ((i.email == "") ≡ false)
unfolding create_invitation
create-found lower now new_id token org_id by input s h = grind (arith, lookup-put_self)

accept_open :
    (lower : Char → Char) (later : ℕ) (token user_id email name : String) (s : Store)
    (i : Invitation)
    → lookup (trim_space token) s.invitations ≡ some i
    → i.status ≡ pending
    → (i.email == "") ≡ false
    → (trim_space token == "") ≡ false
    → (trim_space user_id == "") ≡ false
    → to_lower lower (trim_space email) ≡ i.email
    → later < i.expires_at
    → (accept_invitation lower later token user_id email name s).0
      ≡ ok (record (accepted_by later (trim_space user_id) i) { token = "" })
unfolding accept_invitation accept_found
accept_open lower later token user_id email name s i found st some_email n u e l =
    grind (arith, eq_refl)

-- The invited user gets in: an invitation that was created is accepted for any user with the invited
-- address until it expires, and the acceptance returns it as accepted by that user, without its token.
-- The token is one that has no space around it.
pub accept-create :
    (lower : Char → Char) (now later : ℕ) (new_id token org_id by user_id email name : String)
    (input : InvitationInput) (s : Store) {i : Invitation}
    → (create_invitation lower now new_id token org_id by input s).0 ≡ ok i
    → trim_space token ≡ token
    → (token == "") ≡ false
    → (trim_space user_id == "") ≡ false
    → to_lower lower (trim_space email) ≡ i.email
    → later < i.expires_at
    → (accept_invitation lower later token user_id email name
        (create_invitation lower now new_id token org_id by input s).1).0
      ≡ ok (record (accepted_by later (trim_space user_id) i) { token = "" })
accept-create lower now later new_id token org_id by user_id email name input s {i} h t n u e l =
    let (found, st, some_email) = create-found lower now new_id token org_id by input s h in
    accept_open lower later token user_id email name
      (create_invitation lower now new_id token org_id by input s).1 i (rw t found) st some_email
      (rw t n) u e l
