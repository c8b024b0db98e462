-- ===== src/Tests/InvitationTests.antt =====
-- Invitations, members and identities.
use nice_agent.Prelude.{
  ◌≡◌, refl, true, some, [], ◌∷◌, lookup, ◌<◌, ◌==◌, trim_space, to_lower, contains_char, Char,
  arith, pos,
}
use nice_agent.Protocol.Identity.{OrganizationMember, OrganizationMemberInput, UserIdentity}
use nice_agent.Protocol.Invitation.{Invitation, InvitationInput, pending}
use nice_agent.Store.{new_store, ok, err, invalid_input}
use nice_agent.Store.Members.{normalize_member_role}
use nice_agent.Store.Invitations.{
  create_invitation, accept_invitation, accept_found, with_role, accepted_by,
}
use nice_agent.Store.Invitations.Acceptance.{
  accept-accept, accept-given, accept-create, given_roles,
}
use nice_agent.Tests.Data.{invitation, invited}

abbrev same_case : Char → Char
same_case c = c

abbrev accepted_result : Invitation
accepted_result = record (accepted_by 20 "bob" invitation) { token = "" }

accept-accept_example :
    accept_invitation same_case 30 "invite_token_1" "eve" "bob@example.com" "Eve"
      (accept_invitation same_case 20 "invite_token_1" "bob" "bob@example.com" "Bob" invited).1
    ≡ (
      err invalid_input,
      (accept_invitation same_case 20 "invite_token_1" "bob" "bob@example.com" "Bob" invited).1,
    )
unfolding accept_invitation accept_found with_role trim_space to_lower lookup
accept-accept_example =
    accept-accept same_case 20 30 "invite_token_1" "bob" "bob@example.com" "Bob" "eve"
      "bob@example.com" "Eve" invited {r = accepted_result} refl

accept-given_example :
    (i : Invitation) × (lookup (trim_space "invite_token_1") invited.invitations ≡ some i)
    × (i.status ≡ pending)
    × (20 < i.expires_at)
    × ((to_lower same_case (trim_space "bob@example.com") == i.email) ≡ true)
    × (given_roles
          (trim_space "bob")
          i
          (accept_invitation same_case 20 "invite_token_1" "bob" "bob@example.com" "Bob" invited).1
        ≡ i.role ∷ [])
unfolding accept_invitation accept_found with_role trim_space to_lower lookup
accept-given_example =
    accept-given same_case 20 "invite_token_1" "bob" "bob@example.com" "Bob" invited
      {r = accepted_result} refl

abbrev bob : InvitationInput
bob = record {
  email = "bob@example.com";
  role = "member";
  project_id = "";
  expires_in_hours = pos 0;
}

accept-create_example :
    (accept_invitation same_case 20 "invite_token_1" "bob" "bob@example.com" "Bob"
      (create_invitation same_case 10 "inv_1" "invite_token_1" "demo-org" "demo-user" bob
        (new_store 5)).1).0
    ≡ ok (record (accepted_by 20 (trim_space "bob") invitation) { token = "" })
unfolding create_invitation normalize_member_role trim_space to_lower contains_char lookup
accept-create_example =
    accept-create same_case 10 20 "inv_1" "invite_token_1" "demo-org" "demo-user" "bob"
      "bob@example.com" "Bob" bob (new_store 5) {i = invitation} refl refl refl refl refl
      (omega arith)

abbrev carol : OrganizationMemberInput
carol = record { user_id = "carol"; email = "carol@example.com"; name = "Carol"; role = "admin" }

abbrev carol_member : OrganizationMember
carol_member = record {
  id = "orgmem_carol_demo-org";
  user_id = "carol";
  organization_id = "demo-org";
  role = "admin";
  email = "carol@example.com";
  name = "Carol";
  created_at = 10;
  updated_at = 10;
}

abbrev identity : UserIdentity
identity = record {
  id = "";
  user_id = "carol";
  provider = "oidc";
  issuer = "https://id.example.com";
  subject = "sub-1";
  email = "carol@example.com";
  name = "Carol";
  created_at = 0;
  updated_at = 0;
}
