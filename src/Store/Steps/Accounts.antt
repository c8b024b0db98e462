-- ===== src/Store/Steps/Accounts.antt =====
-- The writing methods on users, members, invitations, e-mails, sessions, policies, skills and audit
-- events, as steps. They
-- leave the runs and their data alone.
use nice_agent.Prelude.{ℕ, String, Bool, ◌≡◌, refl, Option, Char, ℤ, arith}
use nice_agent.Protocol.Identity.{
  OrganizationMemberInput, ProjectMemberInput, UserIdentity, OidcBrowserSession,
}
use nice_agent.Protocol.Invitation.{Invitation, InvitationInput, InvitationEmailEventInput}
use nice_agent.Protocol.Policy.{ProjectQuotaPolicyInput}
use nice_agent.Protocol.Audit.{AuditEventInput, SkillInvocationRecordInput}
use nice_agent.Protocol.Skill.{HttpSkillInput, McpImportCreateInput}
use nice_agent.SkillManifest.Mcp.{McpLibrary}
use nice_agent.Store.{Store}
use nice_agent.Store.Skills.{
  HttpLibrary, write_skill, create_http_skill, create_mcp_skill, replace_skill, update_http_skill,
  set_skill_enabled,
}
use nice_agent.Store.Invocations.{add_audit_event, record_skill_invocation}
use nice_agent.Store.Members.{
  upsert_organization_member, remove_organization_member, upsert_project_member,
  remove_project_member, set_project_role, set_organization_role, set_project_organization,
}
use nice_agent.Store.Invitations.{create_invitation, with_role, accept_found, accept_invitation}
use nice_agent.Store.Outbox.{
  enqueue_invitation_email, requeue_invitation_email, mark_invitation_email_sent,
  mark_invitation_email_failed,
}
use nice_agent.Store.Outbox.Rounds.{claim_due_invitation_emails}
use nice_agent.Store.Outbox.Feedback.{
  write_event, record_typed, record_invitation_email_event, delete_invitation_email_suppression,
}
use nice_agent.Store.Identities.{
  bind_new, bind_trimmed, bind_user_identity, upsert_oidc_browser_session,
  revoke_oidc_browser_session,
}
use nice_agent.Store.Policies.{set_project_quota_policy, set_project_runtime_policy}

pub data AccountStep (s : Store) : Store → Type 0 where
  upsert_organization_member_step :
      (lower : Char → Char) (now : ℕ) (org_id : String) (input : OrganizationMemberInput)
      → AccountStep s (upsert_organization_member lower now org_id input s).1
  remove_organization_member_step :
      (now : ℕ) (org_id user_id : String)
      → AccountStep s (remove_organization_member now org_id user_id s).1
  upsert_project_member_step :
      (lower : Char → Char) (now : ℕ) (project_id : String) (input : ProjectMemberInput)
      → AccountStep s (upsert_project_member lower now project_id input s).1
  remove_project_member_step :
      (now : ℕ) (project_id user_id : String)
      → AccountStep s (remove_project_member now project_id user_id s).1
  set_project_role_step :
      (user_id project_id role : String)
      → AccountStep s (set_project_role user_id project_id role s)
  set_organization_role_step :
      (user_id org_id role : String) → AccountStep s (set_organization_role user_id org_id role s)
  set_project_organization_step :
      (now : ℕ) (project_id org_id : String)
      → AccountStep s (set_project_organization now project_id org_id s)
  create_invitation_step :
      (lower : Char → Char) (now : ℕ) (new_id token org_id invited_by : String)
      (input : InvitationInput)
      → AccountStep s (create_invitation lower now new_id token org_id invited_by input s).1
  accept_invitation_step :
      (lower : Char → Char) (now : ℕ) (token user_id email name : String)
      → AccountStep s (accept_invitation lower now token user_id email name s).1
  enqueue_invitation_email_step :
      (lower : Char → Char) (now : ℕ) (new_id : String) (invitation : Invitation) (max : ℤ)
      → AccountStep s (enqueue_invitation_email lower now new_id invitation max s).1
  requeue_invitation_email_step :
      (lower : Char → Char) (now : ℕ) (new_id org_id invitation_id : String) (max : ℤ)
      → AccountStep s (requeue_invitation_email lower now new_id org_id invitation_id max s).1
  claim_due_invitation_emails_step :
      (lower : Char → Char) (now : ℕ) (limit : ℤ) (locked_by : String) (lock_until : ℕ)
      → AccountStep s (claim_due_invitation_emails lower now limit locked_by lock_until s).1
  mark_invitation_email_sent_step :
      (now : ℕ) (delivery_id : String)
      → AccountStep s (mark_invitation_email_sent now delivery_id s).1
  mark_invitation_email_failed_step :
      (now : ℕ) (delivery_id last_error : String) (next : Option ℕ) (terminal : Bool)
      → AccountStep s (mark_invitation_email_failed now delivery_id last_error next terminal s).1
  record_invitation_email_event_step :
      (lower : Char → Char) (now : ℕ) (new_id sup_id : String) (input : InvitationEmailEventInput)
      → AccountStep s (record_invitation_email_event lower now new_id sup_id input s).1
  delete_invitation_email_suppression_step :
      (org_id suppression_id : String)
      → AccountStep s (delete_invitation_email_suppression org_id suppression_id s).1
  bind_user_identity_step :
      (lower : Char → Char) (now : ℕ) (new_id : String) (identity : UserIdentity)
      → AccountStep s (bind_user_identity lower now new_id identity s).1
  upsert_oidc_browser_session_step :
      (now : ℕ) (session : OidcBrowserSession)
      → AccountStep s (upsert_oidc_browser_session now session s).1
  revoke_oidc_browser_session_step :
      (clock : ℕ) (session_id : String) (revoked_at : ℕ)
      → AccountStep s (revoke_oidc_browser_session clock session_id revoked_at s).1
  set_project_quota_policy_step :
      (now : ℕ) (project_id : String) (input : ProjectQuotaPolicyInput)
      → AccountStep s (set_project_quota_policy now project_id input s).1
  set_project_runtime_policy_step :
      (now : ℕ) (project_id skill_risk_policy : String)
      → AccountStep s (set_project_runtime_policy now project_id skill_risk_policy s).1
  create_http_skill_step :
      (lib : HttpLibrary) (id version_id user_id project_id : String) (input : HttpSkillInput)
      → AccountStep s (create_http_skill lib id version_id user_id project_id input s).1
  create_mcp_skill_step :
      (lib : McpLibrary) (id version_id user_id project_id : String) (input : McpImportCreateInput)
      → AccountStep s (create_mcp_skill lib id version_id user_id project_id input s).1
  update_http_skill_step :
      (lib : HttpLibrary) (version_id user_id skill_id : String) (input : HttpSkillInput)
      → AccountStep s (update_http_skill lib version_id user_id skill_id input s).1
  set_skill_enabled_step :
      (user_id skill_id : String) (enabled : Bool)
      → AccountStep s (set_skill_enabled user_id skill_id enabled s).1
  add_audit_event_step :
      (lower : Char → Char) (now : ℕ) (new_id : String) (input : AuditEventInput)
      → AccountStep s (add_audit_event lower now new_id input s).1
  record_skill_invocation_step :
      (lower : Char → Char) (now : ℕ) (new_id : String) (input : SkillInvocationRecordInput)
      → AccountStep s (record_skill_invocation lower now new_id input s).1

-- The runs and their logs are the same in both stores.
pub record SameRuns (s t : Store) : Type 0 where
  pub runs : t.runs ≡ s.runs
  pub events : t.events ≡ s.events
  pub seq : t.seq ≡ s.seq

pub AccountStep-SameRuns : {s t : Store} → AccountStep s t → SameRuns s t
unfolding upsert_organization_member remove_organization_member upsert_project_member
    remove_project_member set_project_role set_organization_role set_project_organization
    create_invitation with_role accept_found accept_invitation enqueue_invitation_email
    requeue_invitation_email claim_due_invitation_emails mark_invitation_email_sent
    mark_invitation_email_failed write_event record_typed record_invitation_email_event
    delete_invitation_email_suppression bind_new bind_trimmed bind_user_identity
    upsert_oidc_browser_session revoke_oidc_browser_session set_project_quota_policy
    set_project_runtime_policy write_skill create_http_skill create_mcp_skill replace_skill
    update_http_skill set_skill_enabled add_audit_event record_skill_invocation
AccountStep-SameRuns (set_project_role_step a b c) = record {
  runs = refl;
  events = refl;
  seq = refl;
}
AccountStep-SameRuns (set_organization_role_step a b c) = record {
  runs = refl;
  events = refl;
  seq = refl;
}
AccountStep-SameRuns (set_project_organization_step a b c) = record {
  runs = refl;
  events = refl;
  seq = refl;
}
AccountStep-SameRuns (claim_due_invitation_emails_step a b c d e) = record {
  runs = refl;
  events = refl;
  seq = refl;
}
AccountStep-SameRuns _ = record { runs = ground arith; events = ground arith; seq = ground arith }
