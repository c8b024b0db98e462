-- ===== src/Store/Outbox.antt =====
-- The e-mail outbox of store.go: an invitation's delivery is queued, claimed by a worker for a while,
-- and marked as sent or failed. An address that mails have bounced from is suppressed.
pub mod Rounds
pub mod Feedback
pub mod Claims
pub mod Suppression
use nice_agent.Prelude.{
  ℕ, ◌+◌, String, Bool, true, false, not, ◌||◌, ◌&&◌, Option, none, some, List, [], ◌∷◌, ◌++◌, Map,
  lookup, put, ltb, leb, ◌==◌, if◌then◌else◌, or_else, is_some, length, keys, trim_space, to_lower,
  pair_key, Char, ℤ, pos_or, value_or,
}
use nice_agent.Protocol.Invitation.{
  Invitation, pending, InvitationEmailDelivery, InvitationEmailDeliveryStatus, email_pending,
  email_sending, email_sent, email_failed, InvitationEmailSuppression,
}
use nice_agent.Store.{Store, Result, ok, err, not_found, invalid_input}
use nice_agent.Store.Invitations.{is_pending, invitation_by_id}

-- `invitationEmailSuppressionKey`
abbrev pub suppression_key : (Char → Char) → String → String → String
suppression_key lower org_id email =
    pair_key (trim_space org_id) (to_lower lower (trim_space email))

-- `isInvitationEmailSuppressedLocked`
unfoldable pub is_suppressed :
    (Char → Char) → Map InvitationEmailSuppression → String → String → Bool
is_suppressed lower suppressions org_id email =
    if trim_space org_id == "" || trim_space email == ""
    then false
    else is_some (lookup (suppression_key lower org_id email) suppressions)

-- The first delivery of an invitation: the loops of the enqueueing methods.
unfoldable pub delivery_of : String → Map InvitationEmailDelivery → Option InvitationEmailDelivery
delivery_of invitation_id [] = none
delivery_of invitation_id ((_, delivery) ∷ m) =
    let rest = delivery_of invitation_id m in
    if delivery.invitation_id == invitation_id then some delivery else rest

abbrev pub new_delivery : ℕ → String → Invitation → ℕ → InvitationEmailDelivery
new_delivery now new_id invitation max_attempts = record {
  id = new_id;
  invitation_id = invitation.id;
  invitation = invitation;
  status = email_pending;
  attempts = 0;
  max_attempts = max_attempts;
  next_attempt_at = now;
  locked_by = "";
  locked_until = none;
  last_error = "";
  sent_at = none;
  created_at = now;
  updated_at = now;
}

unfoldable pub enqueue_invitation_email :
    (Char → Char) → ℕ → String → Invitation → ℤ → Store → Result InvitationEmailDelivery × Store
enqueue_invitation_email lower now new_id invitation max_attempts s =
    if trim_space invitation.id == ""
    then (err invalid_input, s)
    else if is_suppressed lower s.email_suppressions invitation.organization_id invitation.email
    then (err invalid_input, s)
    else elim (delivery_of invitation.id s.email_deliveries) [
      | some existing ↦ (ok (record existing { invitation = invitation }), s)
      | none ↦
          let delivery = new_delivery now new_id invitation (pos_or max_attempts 1) in
          (ok delivery, record s { email_deliveries = put delivery.id delivery s.email_deliveries })
    ]

-- The delivery that is queued again: the one that is there, or a new one.
abbrev requeued :
    ℕ → String → Invitation → ℕ → Option InvitationEmailDelivery → InvitationEmailDelivery
requeued now new_id invitation max_attempts none = new_delivery now new_id invitation max_attempts
requeued now new_id invitation max_attempts (some existing) =
    if existing.id == ""
    then new_delivery now new_id invitation max_attempts
    else record (new_delivery now existing.id invitation max_attempts) {
      created_at = existing.created_at;
      invitation_id = existing.invitation_id;
    }

unfoldable pub requeue_invitation_email :
    (Char → Char)
    → ℕ
    → String
    → String
    → String
    → ℤ
    → Store
    → Result InvitationEmailDelivery × Store
requeue_invitation_email lower now new_id org_id invitation_id max_attempts s =
    let org_id = trim_space org_id in
    let invitation_id = trim_space invitation_id in
    if org_id == "" || invitation_id == ""
    then (err invalid_input, s)
    else elim (invitation_by_id s.invitations invitation_id) [
      | none ↦ (err not_found, s)
      | some invitation ↦
          if not (invitation.organization_id == org_id)
          then (err not_found, s)
          else if not (is_pending invitation.status) || not (ltb now invitation.expires_at)
          then (err invalid_input, s)
          else if is_suppressed lower s.email_suppressions invitation.organization_id
              invitation.email
          then (err invalid_input, s)
          else (let delivery =
                requeued now new_id invitation (pos_or max_attempts 1)
                  (delivery_of invitation.id s.email_deliveries) in
              (
                ok delivery,
                record s { email_deliveries = put delivery.id delivery s.email_deliveries },
              ))
    ]

abbrev pub sent : ℕ → InvitationEmailDelivery → InvitationEmailDelivery
sent now delivery = record delivery {
  status = email_sent;
  locked_by = "";
  locked_until = none;
  last_error = "";
  sent_at = some now;
  updated_at = now;
}

unfoldable pub mark_invitation_email_sent : ℕ → String → Store → Result (Unit {0}) × Store
mark_invitation_email_sent now delivery_id s =
    let delivery_id = trim_space delivery_id in
    if delivery_id == ""
    then (err invalid_input, s)
    else elim (lookup delivery_id s.email_deliveries) [
      | none ↦ (err not_found, s)
      | some delivery ↦ (
        ok tt,
        record s { email_deliveries = put delivery_id (sent now delivery) s.email_deliveries },
      )
    ]

abbrev pub failed_delivery :
    ℕ → String → Option ℕ → Bool → InvitationEmailDelivery → InvitationEmailDelivery
failed_delivery now last_error next_attempt_at terminal delivery = record delivery {
  status = if terminal then email_failed else email_pending;
  locked_by = "";
  locked_until = none;
  last_error = trim_space last_error;
  next_attempt_at = value_or delivery.next_attempt_at next_attempt_at;
  updated_at = now;
}

unfoldable pub mark_invitation_email_failed :
    ℕ → String → String → Option ℕ → Bool → Store → Result (Unit {0}) × Store
mark_invitation_email_failed now delivery_id last_error next_attempt_at terminal s =
    let delivery_id = trim_space delivery_id in
    if delivery_id == ""
    then (err invalid_input, s)
    else elim (lookup delivery_id s.email_deliveries) [
      | none ↦ (err not_found, s)
      | some delivery ↦ (
        ok tt,
        record s {
          email_deliveries =
              put delivery_id (failed_delivery now last_error next_attempt_at terminal delivery)
                s.email_deliveries;
        },
      )
    ]
