-- ===== src/Tests/OutboxTests.antt =====
-- The e-mail outbox and its worker.
use nice_agent.Prelude.{
  ◌≤◌, true, ◌≡◌, refl, none, some, [], ◌∷◌, lookup, put, trim_space, to_lower, Char, arith, pos,
  All, ForAll, ForAll-put, length,
}
use nice_agent.Protocol.Json.{end}
use nice_agent.Protocol.Invitation.{
  InvitationEmailDelivery, InvitationEmailEventInput, InvitationEmailEvent, bounced,
}
use nice_agent.Store.{Store, err, invalid_input}
use nice_agent.Store.Invitations.{invitation_by_id}
use nice_agent.Store.Outbox.{enqueue_invitation_email, requeue_invitation_email}
use nice_agent.Store.Outbox.Rounds.{claim_due_invitation_emails, locker, lock_end, sending}
use nice_agent.Store.Outbox.Claims.{Stored, Taken, Within, claim_due-locked, claim_due-Taken}
use nice_agent.Store.Outbox.Feedback.{
  record_invitation_email_event, normalize_event_type, event_invitation, record_typed,
  delivery_fits, write_event,
}
use nice_agent.Store.Outbox.Suppression.{
  NormalAddress, is_refused, enqueue-record_event, requeue-record_event,
}
use nice_agent.Mailer.{Clock, deliver, retry_delay, add_duration}
use nice_agent.Mailer.Settles.{outcome, next_time, deliver_settles}
use nice_agent.Tests.Data.{invitation, mail, invited}

abbrev same_case : Char → Char
same_case c = c

abbrev locked_mail : InvitationEmailDelivery
locked_mail = sending 20 "worker-1" 90 invitation mail

abbrev claimed_once : Store
claimed_once = record invited { email_deliveries = ("invmail_1", locked_mail) ∷ [] }

claim_due-locked_example :
    lookup "invmail_1"
      (claim_due_invitation_emails same_case 50
        (pos 1)
        "worker-2"
        120
        claimed_once).1.email_deliveries
    ≡ some locked_mail
unfolding lookup
claim_due-locked_example =
    claim_due-locked same_case 50 (pos 1) "worker-2" 120 claimed_once "invmail_1" locked_mail refl
      refl

invited-Within : ForAll (λ _ d. Within d) invited.email_deliveries
unfolding put lookup
invited-Within = ForAll-put (λ _ d. Within d) "invmail_1" mail [] (omega arith) (λ k v e. cc)

claim_due-Taken_example :
    let claimed = claim_due_invitation_emails same_case 20 (pos 5) "worker-1" 90 invited in
    (length claimed.0 ≤ 5)
    × All (Taken same_case (locker "worker-1") (lock_end 20 90) invited) claimed.0
    × All (Stored claimed.1) claimed.0
    × ForAll (λ _ d. Within d) claimed.1.email_deliveries
claim_due-Taken_example = claim_due-Taken same_case 20 (pos 5) "worker-1" 90 invited invited-Within

abbrev bounce : InvitationEmailEventInput
bounce = record {
  invitation_id = "inv_1";
  delivery_id = "invmail_1";
  provider = "smtp";
  provider_message_id = "m-1";
  type = "bounced";
  reason = "mailbox full";
  payload = end;
  occurred_at = none;
}

abbrev bounce_event : InvitationEmailEvent
bounce_event = record {
  id = "invmailevt_1";
  invitation_id = "inv_1";
  delivery_id = "invmail_1";
  provider = "smtp";
  provider_message_id = "m-1";
  type = bounced;
  reason = "mailbox full";
  payload = end;
  occurred_at = 40;
  created_at = 40;
}

bob-NormalAddress : NormalAddress same_case "demo-org" "bob@example.com"
unfolding trim_space to_lower
bob-NormalAddress = record {
  trimmed_org = refl;
  trimmed_email = refl;
  lower_email = refl;
  some_org = refl;
  some_email = refl;
}

enqueue-record_event_example :
    let t =
      (record_invitation_email_event same_case 40 "invmailevt_1" "invmailsup_1" bounce invited).1 in
    enqueue_invitation_email same_case 50 "invmail_2" invitation (pos 3) t ≡ (err invalid_input, t)
unfolding record_invitation_email_event normalize_event_type event_invitation record_typed
    delivery_fits write_event invitation_by_id lookup trim_space to_lower
enqueue-record_event_example =
    enqueue-record_event same_case 40 50 "invmailevt_1" "invmailsup_1" "invmail_2" bounce invited
      {e = bounce_event} invitation invitation (pos 3) refl refl refl bob-NormalAddress refl refl

requeue-record_event_example :
    let t =
      (record_invitation_email_event same_case 40 "invmailevt_1" "invmailsup_1" bounce invited).1 in
    (is_refused (requeue_invitation_email same_case 50 "invmail_2" "demo-org" "inv_1" (pos 3) t).0
      ≡ true)
    × ((requeue_invitation_email same_case 50 "invmail_2" "demo-org" "inv_1" (pos 3) t).1 ≡ t)
unfolding record_invitation_email_event normalize_event_type event_invitation record_typed
    delivery_fits write_event invitation_by_id lookup trim_space to_lower
requeue-record_event_example =
    requeue-record_event same_case 40 50 "invmailevt_1" "invmailsup_1" "invmail_2" "demo-org"
      "inv_1" bounce invited {e = bounce_event} invitation invitation (pos 3) refl refl refl
      bob-NormalAddress refl refl refl

abbrev clock : Clock
clock = record { lock = 20; claim = 20; retry = 30; mark = 31 }

deliver_settles_example :
    (d : InvitationEmailDelivery) × (lookup "invmail_1"
        (deliver (λ _. some "timeout") (pos 100) clock locked_mail claimed_once).email_deliveries
      ≡ some d)
    × (d.locked_until ≡ none)
    × (d.status ≡ outcome (some "timeout") locked_mail)
    × (d.next_attempt_at
        ≡ next_time
            (add_duration 30 (retry_delay (pos 100) 1))
            locked_mail
            (outcome (some "timeout") locked_mail))
unfolding lookup trim_space
deliver_settles_example =
    deliver_settles (λ _. some "timeout") (pos 100) clock locked_mail locked_mail claimed_once refl
      refl refl
