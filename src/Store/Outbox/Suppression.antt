-- ===== src/Store/Outbox/Suppression.antt =====
-- No mail to an address that a provider has reported.
use nice_agent.Prelude.{
  ℕ, String, ◌≡◌, true, false, some, Option, lookup-put_self, trim_space, to_lower, Char, ℤ, arith,
  sym, ap, ◌∙◌, Bool, ◌==◌, Map,
}
use nice_agent.Protocol.Invitation.{
  Invitation, InvitationEmailEventInput, InvitationEmailEvent, InvitationEmailEventType,
  InvitationEmailSuppression,
}
use mathlib.Core.Option.{some_inj}
use nice_agent.Store.{Store, Result, ok, err, invalid_input}
use nice_agent.Store.Invitations.{invitation_by_id}
use nice_agent.Store.Outbox.{is_suppressed, enqueue_invitation_email, requeue_invitation_email}
use nice_agent.Store.Outbox.Feedback.{
  suppresses_invitation_email, record_suppression, write_event, record_typed,
  record_invitation_email_event,
}

-- An address as `CreateInvitation` keeps it, in an organization whose name has no space around it.
pub record NormalAddress (lower : Char → Char) (org_id email : String) : Type 0 where
  pub trimmed_org : trim_space org_id ≡ org_id
  pub trimmed_email : trim_space email ≡ email
  pub lower_email : to_lower lower email ≡ email
  pub some_org : (org_id == "") ≡ false
  pub some_email : (email == "") ≡ false

suppressed-record :
    (lower : Char → Char) (now : ℕ) (new_id org_id email : String) (e : InvitationEmailEvent)
    (m : Map InvitationEmailSuppression)
    → NormalAddress lower org_id email
    → is_suppressed lower (record_suppression lower now new_id org_id email e m) org_id email ≡ true
unfolding is_suppressed record_suppression
suppressed-record lower now new_id org_id email e m n =
    rw
      (
        n.trimmed_org, n.trimmed_email, n.lower_email, n.trimmed_org, n.trimmed_email,
        n.lower_email, n.some_org, n.some_email,
      )
      (grind (arith, lookup-put_self))

enqueue_refused :
    (lower : Char → Char) (now : ℕ) (new_id : String) (i : Invitation) (max : ℤ) (s : Store)
    → is_suppressed lower s.email_suppressions i.organization_id i.email ≡ true
    → enqueue_invitation_email lower now new_id i max s ≡ (err invalid_input, s)
unfolding enqueue_invitation_email
enqueue_refused lower now new_id i max s h = ground arith

abbrev pub is_refused : {A : Type 0} → Result A → Bool
is_refused (ok a) = false
is_refused (err e) = true

requeue_refused :
    (lower : Char → Char) (now : ℕ) (new_id org_id id : String) (i : Invitation) (max : ℤ)
    (s : Store)
    → invitation_by_id s.invitations (trim_space id) ≡ some i
    → is_suppressed lower s.email_suppressions i.organization_id i.email ≡ true
    → (is_refused (requeue_invitation_email lower now new_id org_id id max s).0 ≡ true)
      × ((requeue_invitation_email lower now new_id org_id id max s).1 ≡ s)
unfolding requeue_invitation_email
requeue_refused lower now new_id org_id id i max s found h = (ground arith, ground arith)

suppressed-write :
    (lower : Char → Char) (now : ℕ) (new_id sup_id : String) (type : InvitationEmailEventType)
    (i : Invitation) (id : String) (input : InvitationEmailEventInput) (s : Store)
    → suppresses_invitation_email type ≡ true
    → NormalAddress lower i.organization_id i.email
    → is_suppressed lower
        (write_event lower now new_id sup_id type i id input s).1.email_suppressions
        i.organization_id
        i.email
      ≡ true
unfolding write_event
suppressed-write lower now new_id sup_id type i id input s h n =
    rw h (suppressed-record lower now sup_id i.organization_id i.email _ s.email_suppressions n)

typed :
    (lower : Char → Char) (now : ℕ) (new_id sup_id : String) (input : InvitationEmailEventInput)
    (s : Store) {e : InvitationEmailEvent}
    → (record_invitation_email_event lower now new_id sup_id input s).0 ≡ ok e
    → (type : InvitationEmailEventType) × (id : String) × (record_invitation_email_event lower now
          new_id sup_id input s
        ≡ record_typed lower now new_id sup_id type input id s)
unfolding record_invitation_email_event
typed lower now new_id sup_id input s h = grind arith

found :
    (lower : Char → Char) (now : ℕ) (new_id sup_id : String) (type : InvitationEmailEventType)
    (input : InvitationEmailEventInput) (id : String) (s : Store) {e : InvitationEmailEvent}
    → (record_typed lower now new_id sup_id type input id s).0 ≡ ok e
    → (i : Invitation) × (invitation_by_id s.invitations id ≡ some i)
      × (record_typed lower now new_id sup_id type input id s
          ≡ write_event lower now new_id sup_id type i id input s)
unfolding record_typed
found lower now new_id sup_id type input id s h = grind arith

event-write_event :
    (lower : Char → Char) (now : ℕ) (new_id sup_id : String) (type : InvitationEmailEventType)
    (i : Invitation) (id : String) (input : InvitationEmailEventInput) (s : Store)
    {e : InvitationEmailEvent}
    → (write_event lower now new_id sup_id type i id input s).0 ≡ ok e
    → (e.type ≡ type) × (e.invitation_id ≡ id)
unfolding write_event
event-write_event lower now new_id sup_id type i id input s h = grind arith

same_value : (o : Option Invitation) (a b : Invitation) → o ≡ some a → o ≡ some b → a ≡ b
same_value o a b p q = some_inj.0 (sym p ∙ q)

-- The event that was recorded decides about the address of the invitation that it names.
suppressed-event :
    (lower : Char → Char) (now : ℕ) (new_id sup_id : String) (input : InvitationEmailEventInput)
    (s : Store) {e : InvitationEmailEvent} (i : Invitation)
    → (record_invitation_email_event lower now new_id sup_id input s).0 ≡ ok e
    → suppresses_invitation_email e.type ≡ true
    → invitation_by_id s.invitations e.invitation_id ≡ some i
    → NormalAddress lower i.organization_id i.email
    → is_suppressed lower
        (record_invitation_email_event lower now new_id sup_id input s).1.email_suppressions
        i.organization_id
        i.email
      ≡ true
suppressed-event lower now new_id sup_id input s {e} i h bad there n =
    let (type, id, q) = typed lower now new_id sup_id input s h in
    let (j, at, w) = found lower now new_id sup_id type input id s {e = e} (rw (← q) h) in
    let (same, same_id) =
      event-write_event lower now new_id sup_id type j id input s {e = e} (rw (← w, ← q) h) in
    let equal : j ≡ i =
      same_value (invitation_by_id s.invitations id) j i at (rw (← same_id) there) in
    rw (q, w, equal)
      (suppressed-write lower now new_id sup_id type i id input s (rw (← same) bad) n)

-- No mail to an address that a provider has reported: once a bounce, a complaint or a drop of an
-- invitation's mail has been recorded, `EnqueueInvitationEmail` for that address in that organization,
-- for any invitation and at any time before the store changes again, is refused as invalid input and
-- changes nothing. The address is trimmed, in lower case and not empty, and so is the organization but
-- for the case.
pub enqueue-record_event :
    (lower : Char → Char) (now later : ℕ) (new_id sup_id mail_id : String)
    (input : InvitationEmailEventInput) (s : Store) {e : InvitationEmailEvent}
    (i again : Invitation) (max : ℤ)
    → (record_invitation_email_event lower now new_id sup_id input s).0 ≡ ok e
    → suppresses_invitation_email e.type ≡ true
    → invitation_by_id s.invitations e.invitation_id ≡ some i
    → NormalAddress lower i.organization_id i.email
    → again.organization_id ≡ i.organization_id
    → again.email ≡ i.email
    → let t = (record_invitation_email_event lower now new_id sup_id input s).1 in
      enqueue_invitation_email lower later mail_id again max t ≡ (err invalid_input, t)
enqueue-record_event lower now later new_id sup_id mail_id input s i again max h bad there n org
      same =
    enqueue_refused lower later mail_id again max _
      (rw (org, same) (suppressed-event lower now new_id sup_id input s i h bad there n))

invitations-record_event :
    (lower : Char → Char) (now : ℕ) (new_id sup_id : String) (input : InvitationEmailEventInput)
    (s : Store)
    → (record_invitation_email_event lower now new_id sup_id input s).1.invitations ≡ s.invitations
unfolding record_invitation_email_event record_typed write_event
invitations-record_event lower now new_id sup_id input s = ground arith

-- Nor is a mail for it queued again: once such an event has been recorded, `RequeueInvitationEmail` of
-- any invitation of that organization to that address returns an error and changes nothing. The
-- address is as `CreateInvitation` keeps it.
pub requeue-record_event :
    (lower : Char → Char) (now later : ℕ) (new_id sup_id mail_id org_id again_id : String)
    (input : InvitationEmailEventInput) (s : Store) {e : InvitationEmailEvent}
    (i again : Invitation) (max : ℤ)
    → (record_invitation_email_event lower now new_id sup_id input s).0 ≡ ok e
    → suppresses_invitation_email e.type ≡ true
    → invitation_by_id s.invitations e.invitation_id ≡ some i
    → NormalAddress lower i.organization_id i.email
    → invitation_by_id s.invitations (trim_space again_id) ≡ some again
    → again.organization_id ≡ i.organization_id
    → again.email ≡ i.email
    → let t = (record_invitation_email_event lower now new_id sup_id input s).1 in
      (is_refused (requeue_invitation_email lower later mail_id org_id again_id max t).0 ≡ true)
      × ((requeue_invitation_email lower later mail_id org_id again_id max t).1 ≡ t)
requeue-record_event lower now later new_id sup_id mail_id org_id again_id input s i again max h bad
      there n listed org same =
    let t = (record_invitation_email_event lower now new_id sup_id input s).1 in
    requeue_refused lower later mail_id org_id again_id again max t
      (ap (λ m. invitation_by_id m (trim_space again_id))
          (invitations-record_event lower now new_id sup_id input s)
        ∙ listed)
      (rw (org, same) (suppressed-event lower now new_id sup_id input s i h bad there n))
