-- ===== src/Store/Outbox/Feedback.antt =====
-- What a mail provider reports on an invitation's e-mail, in store.go, and the suppression of
-- addresses that follows from it.
use nice_agent.Prelude.{
  ℕ, String, Bool, true, false, not, ◌||◌, ◌&&◌, Option, none, some, [], ◌∷◌, ◌++◌, Map, lookup,
  put, delete, eqb, ◌==◌, if◌then◌else◌, or_else, trim_space, to_lower, Char,
}
use nice_agent.Protocol.Invitation.{
  Invitation, InvitationEmailDelivery, email_sent, email_bounced, InvitationEmailEventType,
  delivered, bounced, complaint, dropped, event_type_text, InvitationEmailEventInput,
  InvitationEmailEvent, InvitationEmailSuppression,
}
use nice_agent.Store.{Store, Result, ok, err, not_found, invalid_input}
use nice_agent.Store.Invitations.{invitation_by_id}
use nice_agent.Store.Outbox.{suppression_key}

-- The switch of `normalizeInvitationEmailEventType`; `none` is its empty text.
event_type_of : String → Option InvitationEmailEventType
event_type_of raw =
    if raw == "delivered"
    then some delivered
    else if raw == "bounced"
    then some bounced
    else if raw == "complaint"
    then some complaint
    else if raw == "dropped"
    then some dropped
    else none

unfoldable pub normalize_event_type : (Char → Char) → String → Option InvitationEmailEventType
unfolding event_type_of
normalize_event_type lower raw = event_type_of (to_lower lower (trim_space raw))

-- `suppressesInvitationEmail`
abbrev pub suppresses_invitation_email : InvitationEmailEventType → Bool
suppresses_invitation_email delivered = false
suppresses_invitation_email _ = true

-- The suppression of an address that has none.
fresh_suppression : ℕ → String → String → String → InvitationEmailEvent → InvitationEmailSuppression
fresh_suppression now new_id org_id email event = record {
  id = new_id;
  organization_id = org_id;
  email = email;
  reason = or_else event.reason (event_type_text event.type);
  source_event_id = event.id;
  provider = event.provider;
  provider_message_id = event.provider_message_id;
  created_at = now;
  updated_at = now;
}

-- The suppression that is there keeps its identity, and takes the event's data.
renewed_suppression :
    Option InvitationEmailSuppression → InvitationEmailSuppression → InvitationEmailSuppression
renewed_suppression none fresh = fresh
renewed_suppression (some old) fresh = if old.id == "" then fresh else record fresh {
  id = old.id;
  organization_id = old.organization_id;
  email = old.email;
  created_at = old.created_at;
}

-- `recordInvitationEmailSuppressionLocked`
unfoldable pub record_suppression :
    (Char → Char)
    → ℕ
    → String
    → String
    → String
    → InvitationEmailEvent
    → Map InvitationEmailSuppression
    → Map InvitationEmailSuppression
unfolding fresh_suppression renewed_suppression
record_suppression lower now new_id org_id email event suppressions =
    let org_id' = trim_space org_id in
    let email' = to_lower lower (trim_space email) in
    let key = suppression_key lower org_id' email' in
    if org_id' == "" || email' == ""
    then suppressions
    else put key
        (renewed_suppression (lookup key suppressions)
          (fresh_suppression now new_id org_id' email' event))
        suppressions

-- The delivery after its provider has reported.
abbrev pub reported : ℕ → InvitationEmailEvent → InvitationEmailDelivery → InvitationEmailDelivery
reported now event delivery = elim event.type [
  | delivered ↦ record delivery {
    status = email_sent;
    last_error = "";
    locked_by = "";
    locked_until = none;
    sent_at = some event.occurred_at;
    updated_at = now;
  }
  | _ ↦ record delivery {
    status = email_bounced;
    last_error = or_else event.reason (event_type_text event.type);
    locked_by = "";
    locked_until = none;
    updated_at = now;
  }
]

-- The time of the event: the present, where the input brings none.
occurred : ℕ → Option ℕ → ℕ
occurred now none = now
occurred now (some t) = if eqb t 0 then now else t

-- What is written once the invitation and the delivery are found.
unfoldable pub write_event :
    (Char → Char)
    → ℕ
    → String
    → String
    → InvitationEmailEventType
    → Invitation
    → String
    → InvitationEmailEventInput
    → Store
    → Result InvitationEmailEvent × Store
unfolding occurred
write_event lower now new_id sup_id type invitation invitation_id input s =
    let delivery_id = trim_space input.delivery_id in
    let event : InvitationEmailEvent = record {
      id = new_id;
      invitation_id = invitation_id;
      delivery_id = delivery_id;
      provider = trim_space input.provider;
      provider_message_id = trim_space input.provider_message_id;
      type = type;
      reason = trim_space input.reason;
      payload = input.payload;
      occurred_at = occurred now input.occurred_at;
      created_at = now;
    } in
    (
      ok event,
      record s {
        email_events = s.email_events ++ event ∷ [];
        email_deliveries =
            if delivery_id == ""
            then s.email_deliveries
            else elim (lookup delivery_id s.email_deliveries) [
              | none ↦ s.email_deliveries
              | some delivery ↦ put delivery_id (reported now event delivery) s.email_deliveries
            ];
        email_suppressions =
            if suppresses_invitation_email type
            then record_suppression lower now sup_id invitation.organization_id invitation.email
                event s.email_suppressions
            else s.email_suppressions;
      },
    )

-- The invitation of the input, or of the delivery that it names.
unfoldable pub event_invitation :
    InvitationEmailEventInput → Map InvitationEmailDelivery → Result String
event_invitation input deliveries =
    let invitation_id = trim_space input.invitation_id in
    let delivery_id = trim_space input.delivery_id in
    if invitation_id == "" && not (delivery_id == "")
    then elim (lookup delivery_id deliveries) [
      | none ↦ err not_found
      | some delivery ↦
          if delivery.invitation_id == "" then err invalid_input else ok delivery.invitation_id
    ]
    else if invitation_id == ""
    then err invalid_input
    else ok invitation_id

-- `deliveryID == ""`, or the delivery is there and is of the invitation.
unfoldable pub delivery_fits : String → String → Map InvitationEmailDelivery → Bool
delivery_fits delivery_id invitation_id deliveries =
    if delivery_id == "" then true else elim (lookup delivery_id deliveries) [
      | none ↦ false
      | some delivery ↦ delivery.invitation_id == invitation_id
    ]

-- `RecordInvitationEmailEvent` with the type and the invitation that it has worked out.
unfoldable pub record_typed :
    (Char → Char)
    → ℕ
    → String
    → String
    → InvitationEmailEventType
    → InvitationEmailEventInput
    → String
    → Store
    → Result InvitationEmailEvent × Store
record_typed lower now new_id sup_id type input invitation_id s =
    elim (invitation_by_id s.invitations invitation_id) [
      | none ↦ (err not_found, s)
      | some invitation ↦
          if delivery_fits (trim_space input.delivery_id) invitation_id s.email_deliveries
          then write_event lower now new_id sup_id type invitation invitation_id input s
          else (err not_found, s)
    ]

unfoldable pub record_invitation_email_event :
    (Char → Char)
    → ℕ
    → String
    → String
    → InvitationEmailEventInput
    → Store
    → Result InvitationEmailEvent × Store
record_invitation_email_event lower now new_id sup_id input s =
    elim (normalize_event_type lower input.type) [
      | none ↦ (err invalid_input, s)
      | some type ↦ elim (event_invitation input s.email_deliveries) [
        | err e ↦ (err e, s)
        | ok invitation_id ↦ record_typed lower now new_id sup_id type input invitation_id s
      ]
    ]

-- The key of a suppression, where the loop of `DeleteInvitationEmailSuppression` finds it.
find_suppression :
    String → String → Map InvitationEmailSuppression → Option (String × InvitationEmailSuppression)
find_suppression org_id suppression_id [] = none
find_suppression org_id suppression_id ((key, suppression) ∷ m) =
    let rest = find_suppression org_id suppression_id m in
    if suppression.id == suppression_id && suppression.organization_id == org_id
    then some (key, suppression)
    else rest

unfoldable pub delete_invitation_email_suppression :
    String → String → Store → Result InvitationEmailSuppression × Store
unfolding find_suppression
delete_invitation_email_suppression org_id suppression_id s =
    let org_id = trim_space org_id in
    let suppression_id = trim_space suppression_id in
    if org_id == "" || suppression_id == ""
    then (err invalid_input, s)
    else elim (find_suppression org_id suppression_id s.email_suppressions) [
      | none ↦ (err not_found, s)
      | some (key, suppression) ↦
          (ok suppression, record s { email_suppressions = delete key s.email_suppressions })
    ]
