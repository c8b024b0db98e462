-- ===== src/Store/Invitations.antt =====
-- The invitations of store.go.
pub mod Acceptance
use nice_agent.Prelude.{
  ℕ, ◌+◌, ◌*◌, String, Bool, true, false, not, ◌||◌, ◌&&◌, Option, none, some, List, [], ◌∷◌, Map,
  lookup, put, ltb, ◌==◌, if◌then◌else◌, or_else, trim_space, to_lower, contains_char, pair_key,
  Char, ℤ, pos_or,
}
use nice_agent.Protocol.Identity.{Project}
use nice_agent.Protocol.Invitation.{
  Invitation, InvitationInput, InvitationStatus, pending, accepted, expired,
}
use nice_agent.Store.{Store, Result, ok, err, not_found, invalid_input}
use nice_agent.Store.Members.{normalize_member_role, filled_user, user_of}

-- `time.Hour`, in nanoseconds
abbrev pub hour : ℕ
hour = 3600000000000

abbrev pub is_pending : InvitationStatus → Bool
is_pending pending = true
is_pending _ = false

-- `ok && project.OrganizationID == orgID`
abbrev pub of_organization : String → Option Project → Bool
of_organization org_id none = false
of_organization org_id (some project) = project.organization_id == org_id

-- `token` and `new_id` are drawn.
unfoldable pub create_invitation :
    (Char → Char)
    → ℕ
    → String
    → String
    → String
    → String
    → InvitationInput
    → Store
    → Result Invitation × Store
create_invitation lower now new_id token org_id invited_by input s =
    let email = to_lower lower (trim_space input.email) in
    let role = normalize_member_role lower input.role in
    let project_id = trim_space input.project_id in
    let hours = pos_or input.expires_in_hours 168 in
    if email == "" || not (contains_char 64 email) || role == ""
    then (err invalid_input, s)
    else if ltb 720 hours
    then (err invalid_input, s)
    else if not (project_id == "") && not (of_organization org_id (lookup project_id s.projects))
    then (err invalid_input, s)
    else (let invitation : Invitation = record {
      id = new_id;
      token = token;
      organization_id = org_id;
      project_id = project_id;
      email = email;
      role = role;
      status = pending;
      invited_by_user_id = invited_by;
      accepted_by_user_id = "";
      created_at = now;
      expires_at = now + hours * hour;
      accepted_at = none;
    } in
        (ok invitation, record s { invitations = put token invitation s.invitations }))

-- The role that an accepted invitation gives: in its project, or else in its organization.
unfoldable pub with_role : String → Invitation → Store → Store
with_role user_id invitation s =
    if invitation.project_id == ""
    then record s {
      org_roles =
          put (pair_key user_id invitation.organization_id) (invitation.role ∷ []) s.org_roles;
    }
    else record s {
      project_roles =
          put (pair_key user_id invitation.project_id) (invitation.role ∷ []) s.project_roles;
    }

-- The invitation as it is kept once `user_id` has accepted it.
abbrev pub accepted_by : ℕ → String → Invitation → Invitation
accepted_by now user_id invitation = record invitation {
  status = accepted;
  accepted_by_user_id = user_id;
  accepted_at = some now;
}

-- What `AcceptInvitation` does with the invitation that it finds, with trimmed arguments.
unfoldable pub accept_found :
    ℕ → String → String → String → String → Invitation → Store → Result Invitation × Store
accept_found now token user_id email name invitation s =
    if not (is_pending invitation.status)
    then (err invalid_input, s)
    else if not (ltb now invitation.expires_at)
    then (
      err invalid_input,
      record s { invitations = put token (record invitation { status = expired }) s.invitations },
    )
    else if not (email == invitation.email)
    then (err invalid_input, s)
    else (let user =
          filled_user now user_id invitation.email (trim_space name) (user_of s user_id) in
        let s' = with_role user_id invitation (record s { users = put user_id user s.users }) in
        (
          ok (record (accepted_by now user_id invitation) { token = "" }),
          record s' { invitations = put token (accepted_by now user_id invitation) s'.invitations },
        ))

unfoldable pub accept_invitation :
    (Char → Char) → ℕ → String → String → String → String → Store → Result Invitation × Store
accept_invitation lower now token user_id email name s =
    let token = trim_space token in
    let user_id = trim_space user_id in
    let email = to_lower lower (trim_space email) in
    if token == "" || user_id == "" || email == ""
    then (err invalid_input, s)
    else elim (lookup token s.invitations) [
      | none ↦ (err not_found, s)
      | some invitation ↦ accept_found now token user_id email name invitation s
    ]

-- `invitationByID`
unfoldable pub invitation_by_id : Map Invitation → String → Option Invitation
invitation_by_id [] invitation_id = none
invitation_by_id ((_, invitation) ∷ m) invitation_id =
    let rest = invitation_by_id m invitation_id in
    if invitation.id == invitation_id then some invitation else rest

-- An invitation as it is listed.
abbrev pub listed : ℕ → Invitation → Invitation
listed now invitation = record invitation {
  token = "";
  status =
      if is_pending invitation.status && not (ltb now invitation.expires_at)
      then expired
      else invitation.status;
}

-- `sort.Slice` with the latest creation first, as an insertion sort.
insert_newest : Invitation → List Invitation → List Invitation
insert_newest a [] = a ∷ []
insert_newest a (b ∷ bs) =
    let rest = insert_newest a bs in if ltb a.created_at b.created_at then b ∷ rest else a ∷ b ∷ bs

listed_of : ℕ → String → Map Invitation → List Invitation
unfolding insert_newest
listed_of now org_id [] = []
listed_of now org_id ((_, invitation) ∷ m) =
    let rest = listed_of now org_id m in
    if invitation.organization_id == org_id
    then insert_newest (listed now invitation) rest
    else rest

unfoldable pub list_invitations : ℕ → String → Store → List Invitation
unfolding listed_of
list_invitations now org_id s = listed_of now org_id s.invitations
