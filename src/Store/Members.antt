-- ===== src/Store/Members.antt =====
-- Members, roles and projects in store.go. The lists of members only read and are left out.
use Prim.Native.String
use nice_agent.Prelude.{
  ℕ, String, Bool, false, Option, none, some, List, [], ◌∷◌, lookup, put, delete, value_or, ◌==◌,
  ◌||◌, eqb, if◌then◌else◌, or_else, trim_space, to_lower, pair_key, Char,
}
use nice_agent.Protocol.Identity.{
  User, zero_user, zero_project, OrganizationMember, OrganizationMemberInput, ProjectMember,
  ProjectMemberInput,
}
use nice_agent.Store.{Store, Result, ok, err, not_found, invalid_input}

-- The switch of `normalizeMemberRole`
known_role : String → String
known_role role =
    if role == "owner"
      || role == "admin"
      || role == "member"
      || role == "editor"
      || role == "writer"
      || role == "viewer"
    then role
    else ""

unfoldable pub normalize_member_role : (Char → Char) → String → String
unfolding known_role
normalize_member_role lower role = known_role (to_lower lower (trim_space role))

-- The first role, for roles that are not empty.
abbrev pub first_role : Option (List String) → Option String
first_role none = none
first_role (some []) = none
first_role (some (role ∷ _)) = some role

-- `s.users[userID]` with what an upsert of a member or an invitation fills in: `email` and `name` are
-- what comes before the values that are there.
unfoldable pub filled_user : ℕ → String → String → String → User → User
filled_user now user_id email name user = record {
  id = user_id;
  email = email;
  name = or_else name (or_else user.name user_id);
  status = or_else user.status "active";
  created_at = if eqb user.created_at 0 then now else user.created_at;
}

-- `firstNonEmpty(strings.TrimSpace(input.Email), user.Email, userID+"@niceagent.local")`
member_email : String → String → User → String
member_email user_id email user =
    or_else (trim_space email) (or_else user.email (String.◌++◌ user_id "@niceagent.local"))

abbrev pub user_of : Store → String → User
user_of s user_id = value_or zero_user (lookup user_id s.users)

member_user : ℕ → String → String → String → Store → User
unfolding member_email
member_user now user_id email name s =
    let user = user_of s user_id in
    filled_user now user_id (member_email user_id email user) (trim_space name) user

-- "orgmem_" + userID + "_" + orgID
member_id : String → String → String → String
member_id kind user_id group_id = String.◌++◌ kind (String.◌++◌ user_id (String.◌++◌ "_" group_id))

unfoldable pub org_member : ℕ → String → String → String → User → OrganizationMember
unfolding member_id
org_member now user_id org_id role user = record {
  id = member_id "orgmem_" user_id org_id;
  user_id = user_id;
  organization_id = org_id;
  role = role;
  email = user.email;
  name = user.name;
  created_at = now;
  updated_at = now;
}

unfoldable pub upsert_organization_member :
    (Char → Char) → ℕ → String → OrganizationMemberInput → Store → Result OrganizationMember × Store
unfolding member_user org_member
upsert_organization_member lower now org_id input s =
    let user_id = trim_space input.user_id in
    let role = normalize_member_role lower input.role in
    if user_id == "" || role == ""
    then (err invalid_input, s)
    else (let user = member_user now user_id input.email input.name s in
        (
          ok (org_member now user_id org_id role user),
          record s {
            users = put user_id user s.users;
            org_roles = put (pair_key user_id org_id) (role ∷ []) s.org_roles;
          },
        ))

-- The user of a removed member: the zero user's empty name where there is none.
unfoldable pub remove_organization_member :
    ℕ → String → String → Store → Result OrganizationMember × Store
unfolding org_member
remove_organization_member now org_id user_id s =
    let key = pair_key user_id org_id in
    elim (first_role (lookup key s.org_roles)) [
      | none ↦ (err not_found, s)
      | some role ↦ (
        ok (org_member now user_id org_id role (user_of s user_id)),
        record s { org_roles = delete key s.org_roles },
      )
    ]

project_member : ℕ → String → String → String → User → ProjectMember
unfolding member_id
project_member now user_id project_id role user = record {
  id = member_id "prjmem_" user_id project_id;
  user_id = user_id;
  project_id = project_id;
  role = role;
  email = user.email;
  name = user.name;
  created_at = now;
  updated_at = now;
}

unfoldable pub upsert_project_member :
    (Char → Char) → ℕ → String → ProjectMemberInput → Store → Result ProjectMember × Store
unfolding member_user project_member
upsert_project_member lower now project_id input s =
    let user_id = trim_space input.user_id in
    let role = normalize_member_role lower input.role in
    if user_id == "" || role == ""
    then (err invalid_input, s)
    else (let user = member_user now user_id input.email input.name s in
        (
          ok (project_member now user_id project_id role user),
          record s {
            users = put user_id user s.users;
            project_roles = put (pair_key user_id project_id) (role ∷ []) s.project_roles;
          },
        ))

unfoldable pub remove_project_member : ℕ → String → String → Store → Result ProjectMember × Store
unfolding project_member
remove_project_member now project_id user_id s =
    let key = pair_key user_id project_id in
    elim (first_role (lookup key s.project_roles)) [
      | none ↦ (err not_found, s)
      | some role ↦ (
        ok (project_member now user_id project_id role (user_of s user_id)),
        record s { project_roles = delete key s.project_roles },
      )
    ]

unfoldable pub list_organization_roles : String → String → Store → List String
list_organization_roles user_id org_id s =
    value_or [] (lookup (pair_key user_id org_id) s.org_roles)

unfoldable pub list_project_roles : String → String → Store → List String
list_project_roles user_id project_id s =
    value_or [] (lookup (pair_key user_id project_id) s.project_roles)

unfoldable pub set_project_role : String → String → String → Store → Store
set_project_role user_id project_id role s = record s {
  project_roles = put (pair_key user_id project_id) (role ∷ []) s.project_roles;
}

unfoldable pub set_organization_role : String → String → String → Store → Store
set_organization_role user_id org_id role s = record s {
  org_roles = put (pair_key user_id org_id) (role ∷ []) s.org_roles;
}

unfoldable pub set_project_organization : ℕ → String → String → Store → Store
set_project_organization now project_id org_id s =
    let project = value_or zero_project (lookup project_id s.projects) in
    record s {
      projects =
          put project_id
            (record {
              id = project_id;
              organization_id = org_id;
              name = or_else project.name project_id;
              created_at = if eqb project.created_at 0 then now else project.created_at;
            })
            s.projects;
    }

unfoldable pub project_belongs_to_organization : String → String → Store → Bool
project_belongs_to_organization project_id org_id s = elim (lookup project_id s.projects) [
  | none ↦ false
  | some project ↦ project.organization_id == org_id
]
