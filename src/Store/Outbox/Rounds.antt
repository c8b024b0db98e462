-- ===== src/Store/Outbox/Rounds.antt =====
-- `ClaimDueInvitationEmails` of store.go: the loop in which a worker takes the deliveries that are due.
use nice_agent.Prelude.{
  ℕ, ◌+◌, String, Bool, true, false, not, ◌&&◌, Option, none, some, List, [], ◌∷◌, ◌++◌, Map,
  lookup, put, ltb, leb, if◌then◌else◌, or_else, length, keys, trim_space, Char, ℤ, pos_or,
}
use nice_agent.Protocol.Invitation.{
  Invitation, InvitationEmailDelivery, InvitationEmailDeliveryStatus, email_pending, email_sending,
  email_failed,
}
use nice_agent.Store.{Store}
use nice_agent.Store.Invitations.{invitation_by_id}
use nice_agent.Store.Outbox.{is_suppressed}

-- `time.Minute`, in nanoseconds
abbrev minute : ℕ
minute = 60000000000

-- The tests of the claiming loop that leave a delivery as it is.
abbrev is_open_delivery : InvitationEmailDeliveryStatus → Bool
is_open_delivery email_pending = true
is_open_delivery email_sending = true
is_open_delivery _ = false

abbrev pub locked_at : ℕ → InvitationEmailDelivery → Bool
locked_at now delivery = elim delivery.locked_until [ none ↦ false | some until ↦ ltb now until ]

abbrev pub is_due : ℕ → InvitationEmailDelivery → Bool
is_due now delivery =
    is_open_delivery delivery.status
    && not (ltb now delivery.next_attempt_at)
    && not (locked_at now delivery)

-- The four ways in which the loop rewrites a due delivery.
abbrev exhausted : ℕ → InvitationEmailDelivery → InvitationEmailDelivery
exhausted now delivery = record delivery {
  status = email_failed;
  last_error = or_else delivery.last_error "max attempts reached";
  locked_by = "";
  locked_until = none;
  updated_at = now;
}

abbrev orphaned : ℕ → InvitationEmailDelivery → InvitationEmailDelivery
orphaned now delivery = record delivery {
  status = email_failed;
  last_error = "invitation not found";
  updated_at = now;
}

abbrev suppressed : ℕ → InvitationEmailDelivery → InvitationEmailDelivery
suppressed now delivery = record delivery {
  status = email_failed;
  last_error = "invitation email suppressed";
  locked_by = "";
  locked_until = none;
  updated_at = now;
}

abbrev pub sending : ℕ → String → ℕ → Invitation → InvitationEmailDelivery → InvitationEmailDelivery
sending now locked_by lock_until invitation delivery = record delivery {
  status = email_sending;
  attempts = delivery.attempts + 1;
  locked_by = locked_by;
  locked_until = some lock_until;
  invitation = invitation;
  updated_at = now;
}

-- What a round of the loop does with the delivery that it looks at.
pub data Round : Type 0 where
  skip : Round
  give_up : InvitationEmailDelivery → Round
  claim : InvitationEmailDelivery → Round

unfoldable pub round : (Char → Char) → ℕ → String → ℕ → Store → InvitationEmailDelivery → Round
round lower now locked_by lock_until s delivery =
    if not (is_due now delivery)
    then skip
    else if leb delivery.max_attempts delivery.attempts
    then give_up (exhausted now delivery)
    else elim (invitation_by_id s.invitations delivery.invitation_id) [
      | none ↦ give_up (orphaned now delivery)
      | some invitation ↦
          if is_suppressed lower s.email_suppressions invitation.organization_id invitation.email
          then give_up (suppressed now delivery)
          else claim (sending now locked_by lock_until invitation delivery)
    ]

abbrev pub after_round :
    String
    → Round
    → List InvitationEmailDelivery
    → Map InvitationEmailDelivery
    → List InvitationEmailDelivery × Map InvitationEmailDelivery
after_round id skip taken m = (taken, m)
after_round id (give_up delivery) taken m = (taken, put id delivery m)
after_round id (claim delivery) taken m = (taken ++ delivery ∷ [], put id delivery m)

abbrev pub round_of : (InvitationEmailDelivery → Round) → Option InvitationEmailDelivery → Round
round_of f none = skip
round_of f (some delivery) = f delivery

-- The loop over the identifiers; `f` is what it does with a delivery.
unfoldable pub claim_all :
    (InvitationEmailDelivery → Round)
    → ℕ
    → List String
    → List InvitationEmailDelivery
    → Map InvitationEmailDelivery
    → List InvitationEmailDelivery × Map InvitationEmailDelivery
claim_all f limit [] taken m = (taken, m)
claim_all f limit (id ∷ ids) taken m =
    let (taken', m') = after_round id (round_of f (lookup id m)) taken m in
    let rest = claim_all f limit ids taken' m' in
    if leb limit (length taken) then (taken, m) else rest

-- The worker's name and the end of its lock, with their defaults.
abbrev pub locker : String → String
locker locked_by = or_else (trim_space locked_by) "control-plane"

abbrev pub lock_end : ℕ → ℕ → ℕ
lock_end now lock_until = if ltb now lock_until then lock_until else now + minute

unfoldable pub claim_due_invitation_emails :
    (Char → Char) → ℕ → ℤ → String → ℕ → Store → List InvitationEmailDelivery × Store
claim_due_invitation_emails lower now limit locked_by lock_until s =
    let (taken, deliveries) =
      claim_all (round lower now (locker locked_by) (lock_end now lock_until) s) (pos_or limit 1)
        (keys s.email_deliveries) [] s.email_deliveries in
    (taken, record s { email_deliveries = deliveries })
