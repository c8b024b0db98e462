-- ===== src/ActionPolicy.antt =====
-- services/control-plane/internal/httpapi/action_policy.go: which roles an action asks for. The reading and
-- the decoding of the policy file are arguments, and `lower` is the table of `strings.ToLower`.
use nice_agent.Prelude.{
  String, Bool, ◌||◌, true, false, Option, none, some, ◌≡◌, List, [], ◌∷◌, ◌==◌, if◌then◌else◌,
  arith, Map, Char, lookup, put, trim_space, to_lower, value_or,
}
use nice_agent.Protocol.Audit.{ActorContext}

pub data ActionRequirement : Type 0 where
  write project_admin organization_admin : ActionRequirement
  other_requirement : String → ActionRequirement

pub record ActionPolicyDecision : Type 0 where
  pub allowed : Bool
  pub reason : String
  pub message : String
  pub required_roles : List String

unfoldable pub default_action_policy : Map ActionRequirement
default_action_policy =
    ("chat.create", write)
    ∷ ("chat.archive", write)
    ∷ ("chat.restore", write)
    ∷ ("message.create", write)
    ∷ ("run.cancel", write)
    ∷ ("skill.enable", write)
    ∷ ("skill.disable", write)
    ∷ ("skill.approve", write)
    ∷ ("skill.import.preview", write)
    ∷ ("skill.import.mcp.preview", write)
    ∷ ("skill.import.create", write)
    ∷ ("skill.import.mcp.create", write)
    ∷ ("skill.create", write)
    ∷ ("skill.update", write)
    ∷ ("project.usage.read", project_admin)
    ∷ ("project.quota.update", project_admin)
    ∷ ("project.runtime_policy.update", project_admin)
    ∷ ("project.member.upsert", project_admin)
    ∷ ("project.member.remove", project_admin)
    ∷ ("invitation.list", organization_admin)
    ∷ ("invitation.create", organization_admin)
    ∷ ("invitation.email.resend", organization_admin)
    ∷ ("invitation.email_event.list", organization_admin)
    ∷ ("invitation.email_suppression.list", organization_admin)
    ∷ ("invitation.email_suppression.delete", organization_admin)
    ∷ ("invitation.email_event.record", organization_admin)
    ∷ ("organization.member.upsert", organization_admin)
    ∷ ("organization.member.remove", organization_admin)
    ∷ []

-- The allowed decision, with the other fields at their zero values.
abbrev pub allow_action : ActionPolicyDecision
allow_action = record { allowed = true; reason = ""; message = ""; required_roles = [] }

abbrev write_roles : List String
write_roles = "owner" ∷ "admin" ∷ "member" ∷ "editor" ∷ "writer" ∷ []

abbrev admin_roles : List String
admin_roles = "owner" ∷ "admin" ∷ []

abbrev is_admin_role : String → Bool
is_admin_role role = role == "owner" || role == "admin"

abbrev is_write_role : String → Bool
is_write_role role =
    role == "owner" || role == "admin" || role == "member" || role == "editor" || role == "writer"

module _ (lower : Char → Char) where
  -- `strings.ToLower(strings.TrimSpace(value))`
  abbrev clean : String → String
  clean value = to_lower lower (trim_space value)

  unfoldable pub parse_action_requirement : String → Option ActionRequirement
  parse_action_requirement value =
      if clean value == "write"
      then some write
      else if clean value == "project_admin"
      then some project_admin
      else if clean value == "organization_admin"
      then some organization_admin
      else none

  unfoldable pub actor_can_write : List String → Bool
  actor_can_write [] = false
  actor_can_write (role ∷ roles) = is_write_role (clean role) || actor_can_write roles

  unfoldable pub actor_can_admin : List String → Bool
  actor_can_admin [] = false
  actor_can_admin (role ∷ roles) = is_admin_role (clean role) || actor_can_admin roles

  -- The decision on a requirement.
  unfoldable pub decide_requirement : ActorContext → ActionRequirement → ActionPolicyDecision
  decide_requirement actor write = if actor_can_write actor.roles then allow_action else record {
    allowed = false;
    reason = "action requires write role";
    message = "当前角色没有执行该操作的权限。";
    required_roles = write_roles;
  }
  decide_requirement actor project_admin =
      if actor_can_admin actor.roles then allow_action else record {
        allowed = false;
        reason = "action requires project admin role";
        message = "当前角色没有管理项目的权限。";
        required_roles = admin_roles;
      }
  decide_requirement actor organization_admin =
      if actor_can_admin actor.roles then allow_action else record {
        allowed = false;
        reason = "action requires organization admin role";
        message = "当前角色没有管理组织的权限。";
        required_roles = admin_roles;
      }
  decide_requirement actor (other_requirement r) = record {
    allowed = false;
    reason = "unsupported action requirement";
    message = "当前角色没有执行该操作的权限。";
    required_roles = [];
  }

  unfoldable pub authorize :
      Map ActionRequirement → ActorContext → String → ActionRequirement → ActionPolicyDecision
  authorize policy actor action fallback =
      decide_requirement actor (value_or fallback (lookup (trim_space action) policy))

  -- The loop over the actions of the file; `none` is an error.
  unfoldable pub with_actions :
      List (String × String) → Map ActionRequirement → Option (Map ActionRequirement)
  with_actions [] policy = some policy
  with_actions ((action, requirement) ∷ actions) policy =
      if trim_space action == "" then none else elim (parse_action_requirement requirement) [
        | none ↦ none
        | some parsed ↦ with_actions actions (put (trim_space action) parsed policy)
      ]

  -- `read` is `os.ReadFile` with the decoding of its text.
  unfoldable pub load_action_policy_file :
      (String → Option (List (String × String))) → String → Option (Map ActionRequirement)
  load_action_policy_file read path =
      if trim_space path == "" then some default_action_policy else elim (read (trim_space path)) [
        | none ↦ none
        | some actions ↦ with_actions actions default_action_policy
      ]

  admin_can_write :
      (roles : List String) → actor_can_admin roles ≡ true → actor_can_write roles ≡ true
  unfolding actor_can_admin actor_can_write
  admin_can_write [] q = ground arith
  admin_can_write (role ∷ roles) q = ground (arith, admin_can_write roles)

  decide-write :
      (actor : ActorContext) (r : ActionRequirement)
      → (decide_requirement actor r).allowed ≡ true
      → actor_can_write actor.roles ≡ true
  unfolding decide_requirement
  decide-write actor write q = ground arith
  decide-write actor project_admin q = ground (arith, admin_can_write actor.roles)
  decide-write actor organization_admin q = ground (arith, admin_can_write actor.roles)
  decide-write actor (other_requirement r) q = ground arith

  -- An actor whom some policy lets do some action may do every action that asks for the right to write.
  pub authorize-authorize_write :
      (policy policy' : Map ActionRequirement) (actor : ActorContext) (action action' : String)
      (fallback fallback' : ActionRequirement)
      → (authorize policy actor action fallback).allowed ≡ true
      → value_or fallback' (lookup (trim_space action') policy') ≡ write
      → authorize policy' actor action' fallback' ≡ allow_action
  unfolding authorize decide_requirement
  authorize-authorize_write policy policy' actor action action' fallback fallback' q w =
      let may = decide-write actor (value_or fallback (lookup (trim_space action) policy)) q in
      ground arith
