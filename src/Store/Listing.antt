-- ===== src/Store/Listing.antt =====
-- The lists of store.go that only read: chats, members, and the events and suppressions of e-mails.
use Prim.Native.String
use Prim.Native.Nat.{Ordering}
use Prim.Native.Char.{code}
use nice_agent.Prelude.{
  ℕ, ℤ, String, Bool, ◌&&◌, ◌||◌, not, true, false, Option, none, some, List, [], ◌∷◌, Map, Char,
  lookup, value_or, ltb, eqb, ◌==◌, concat, pos_or, length, sort_by, first_that, reverse_onto,
  trim_space, to_lower, contains_text, if◌then◌else◌,
}
use nice_agent.Protocol.Chat.{ChatSession, Message}
use nice_agent.Protocol.Identity.{User, zero_user, OrganizationMember, ProjectMember}
use nice_agent.Protocol.Invitation.{
  Invitation, InvitationEmailEvent, InvitationEmailSuppression, InvitationEmailEventListOptions,
}
use nice_agent.Protocol.Audit.{ChatListOptions}
use nice_agent.Store.{Store}
use nice_agent.Store.Invitations.{invitation_by_id}

-- The test of the loop over the chats; `query` is the trimmed and lowered one.
unfoldable pub chat_listed : (Char → Char) → String → String → String → Bool → ChatSession → Bool
chat_listed lower user_id project_id query include_archived chat =
    chat.user_id == user_id
    && chat.project_id == project_id
    && (not chat.archived || include_archived)
    && (query == "" || contains_text query (to_lower lower chat.title))

-- The chats that pass, with the number of their messages.
unfoldable pub listed_chats :
    (ChatSession → Bool) → Map (List Message) → Map ChatSession → List ChatSession
listed_chats test messages [] = []
listed_chats test messages ((_, chat) ∷ chats) =
    let rest = listed_chats test messages chats in
    if test chat
    then record chat { message_count = length (value_or [] (lookup chat.id messages)) } ∷ rest
    else rest

unfoldable pub list_chats :
    (Char → Char) → String → String → ChatListOptions → Store → List ChatSession
list_chats lower user_id project_id opts s =
    let query = to_lower lower (trim_space opts.query) in
    sort_by (λ a b. not (ltb a.updated_at b.updated_at))
      (listed_chats (chat_listed lower user_id project_id query opts.include_archived) s.messages
        s.chats)

-- `strings.Split(key, "\x00")` where it has two parts.
abbrev only_one : Option (String × String) → Char → Option (String × String)
only_one none c = none
only_one (some (a, b)) c = some (String.◌∷◌ c a, b)

unfoldable pub no_nul : String → Bool
no_nul String.[] = true
no_nul (String.◌∷◌ c s) = not (eqb (code c) 0) && no_nul s

-- `splitOrgRoleKey` and `splitProjectRoleKey`
unfoldable pub split_key : String → Option (String × String)
split_key String.[] = none
split_key (String.◌∷◌ c s) =
    let rest = split_key s in
    if eqb (code c) 0 then (if no_nul s then some ("", s) else none) else only_one rest c

-- By role, and by user where the roles are equal.
unfoldable pub member_before : String → String → String → String → Bool
member_before role user_id other_role other_user_id = elim (String.compare role other_role) [
  | Ordering.lt ↦ true
  | Ordering.gt ↦ false
  | Ordering.eq ↦ elim (String.compare user_id other_user_id) [ Ordering.gt ↦ false | _ ↦ true ]
]

-- One role entry of the loop.
unfoldable pub organization_member :
    ℕ → String → Map User → String → List String → Option OrganizationMember
organization_member now org_id users key roles = elim (split_key key) [
  | none ↦ none
  | some (user_id, other) ↦ elim roles [
    | [] ↦ none
    | role ∷ _ ↦
        if other == org_id
        then some (record {
          id = concat "orgmem_" (concat user_id (concat "_" org_id));
          user_id = user_id;
          email = (value_or zero_user (lookup user_id users)).email;
          name = (value_or zero_user (lookup user_id users)).name;
          organization_id = org_id;
          role = role;
          created_at = now;
          updated_at = now;
        })
        else none
  ]
]

unfoldable pub organization_members :
    ℕ → String → Map User → Map (List String) → List OrganizationMember
organization_members now org_id users [] = []
organization_members now org_id users ((key, roles) ∷ entries) =
    let rest = organization_members now org_id users entries in
    elim (organization_member now org_id users key roles) [ none ↦ rest | some m ↦ m ∷ rest ]

unfoldable pub list_organization_members : ℕ → String → Store → List OrganizationMember
list_organization_members now org_id s =
    sort_by (λ a b. member_before a.role a.user_id b.role b.user_id)
      (organization_members now org_id s.users s.org_roles)

-- One role entry of the loop.
unfoldable pub project_member : ℕ → String → Map User → String → List String → Option ProjectMember
project_member now project_id users key roles = elim (split_key key) [
  | none ↦ none
  | some (user_id, other) ↦ elim roles [
    | [] ↦ none
    | role ∷ _ ↦
        if other == project_id
        then some (record {
          id = concat "prjmem_" (concat user_id (concat "_" project_id));
          user_id = user_id;
          email = (value_or zero_user (lookup user_id users)).email;
          name = (value_or zero_user (lookup user_id users)).name;
          project_id = project_id;
          role = role;
          created_at = now;
          updated_at = now;
        })
        else none
  ]
]

unfoldable pub project_members : ℕ → String → Map User → Map (List String) → List ProjectMember
project_members now project_id users [] = []
project_members now project_id users ((key, roles) ∷ entries) =
    let rest = project_members now project_id users entries in
    elim (project_member now project_id users key roles) [ none ↦ rest | some m ↦ m ∷ rest ]

unfoldable pub list_project_members : ℕ → String → Store → List ProjectMember
list_project_members now project_id s =
    sort_by (λ a b. member_before a.role a.user_id b.role b.user_id)
      (project_members now project_id s.users s.project_roles)

-- The suppressions of an organization, in the order of the map.
unfoldable pub suppressions_of :
    String → Map InvitationEmailSuppression → List InvitationEmailSuppression
suppressions_of org_id [] = []
suppressions_of org_id ((_, suppression) ∷ suppressions) =
    let rest = suppressions_of org_id suppressions in
    if suppression.organization_id == org_id then suppression ∷ rest else rest

unfoldable pub list_invitation_email_suppressions :
    String → ℤ → Store → List InvitationEmailSuppression
list_invitation_email_suppressions org_id limit s =
    first_that (pos_or limit 100) (λ _. true)
      (sort_by (λ a b. not (ltb a.updated_at b.updated_at))
        (suppressions_of (trim_space org_id) s.email_suppressions))

-- The invitation of an event is one of the organization.
abbrev of_organization : String → Option Invitation → Bool
of_organization org_id none = false
of_organization org_id (some invitation) = invitation.organization_id == org_id

-- A filter that is empty lets everything pass.
abbrev passes : String → String → Bool
passes wanted value = wanted == "" || value == wanted

unfoldable pub event_listed :
    String → String → String → Map Invitation → InvitationEmailEvent → Bool
event_listed org_id invitation_id delivery_id invitations event =
    of_organization org_id (invitation_by_id invitations event.invitation_id)
    && passes invitation_id event.invitation_id
    && passes delivery_id event.delivery_id

-- From the newest on.
unfoldable pub list_invitation_email_events :
    String → InvitationEmailEventListOptions → Store → List InvitationEmailEvent
list_invitation_email_events org_id opts s =
    first_that (pos_or opts.limit 100)
      (event_listed (trim_space org_id) (trim_space opts.invitation_id)
        (trim_space opts.delivery_id) s.invitations)
      (reverse_onto s.email_events [])
