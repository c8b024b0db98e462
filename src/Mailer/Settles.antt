-- ===== src/Mailer/Settles.antt =====
-- Every delivery that a worker takes is settled.
use nice_agent.Prelude.{
  ℕ, ◌-◌, ◌*◌, ◌^◌, ◌≤◌, ◌<◌, String, ◌≡◌, refl, true, false, none, some, Option, lookup,
  lookup-put_self, Option-cases, Bool-cases, Bool, inl, inr, trim_space, leb, if◌then◌else◌, ℤ, pos,
  arith, ◌==◌,
}
use nice_agent.Protocol.Invitation.{
  Invitation, InvitationEmailDelivery, InvitationEmailDeliveryStatus, email_pending, email_sent,
  email_failed,
}
use nice_agent.Store.{Store}
use nice_agent.Store.Outbox.{
  sent, failed_delivery, mark_invitation_email_sent, mark_invitation_email_failed,
}
use nice_agent.Mailer.{Clock, retry_delay, deliver, add_duration}

-- How a delivery ends that was tried: by what the sender returned, and by the attempts that are left.
abbrev pub outcome : Option String → InvitationEmailDelivery → InvitationEmailDeliveryStatus
outcome none delivery = email_sent
outcome (some message) delivery =
    if leb delivery.max_attempts delivery.attempts then email_failed else email_pending

-- The time of the next attempt: `retry` for a delivery that waits, and else what it was.
abbrev pub next_time : ℕ → InvitationEmailDelivery → InvitationEmailDeliveryStatus → ℕ
next_time retry old email_pending = retry
next_time retry old _ = old.next_attempt_at

found_sent :
    (now : ℕ) (id : String) (old : InvitationEmailDelivery) (s : Store)
    → trim_space id ≡ id
    → (id == "") ≡ false
    → lookup id s.email_deliveries ≡ some old
    → lookup id (mark_invitation_email_sent now id s).1.email_deliveries ≡ some (sent now old)
unfolding mark_invitation_email_sent
found_sent now id old s t n e = grind (arith, lookup-put_self)

found_failed :
    (now : ℕ) (id m : String) (next : Option ℕ) (terminal : Bool) (old : InvitationEmailDelivery)
    (s : Store)
    → trim_space id ≡ id
    → (id == "") ≡ false
    → lookup id s.email_deliveries ≡ some old
    → lookup id (mark_invitation_email_failed now id m next terminal s).1.email_deliveries
      ≡ some (failed_delivery now m next terminal old)
unfolding mark_invitation_email_failed
found_failed now id m next terminal old s t n e = grind (arith, lookup-put_self)

deliver-sent :
    (send : Invitation → Option String) (initial_delay : ℤ) (clock : Clock)
    (delivery : InvitationEmailDelivery) (s : Store)
    → send delivery.invitation ≡ none
    → deliver send initial_delay clock delivery s
      ≡ (mark_invitation_email_sent clock.mark delivery.id s).1
unfolding deliver
deliver-sent send initial_delay clock delivery s out = ground arith

-- The time of the next attempt after a failure.
abbrev retry_at : ℤ → Clock → InvitationEmailDelivery → ℕ
retry_at initial_delay clock delivery =
    add_duration clock.retry (retry_delay initial_delay delivery.attempts)

deliver-failed :
    (send : Invitation → Option String) (initial_delay : ℤ) (clock : Clock)
    (delivery : InvitationEmailDelivery) (s : Store) (m : String)
    → send delivery.invitation ≡ some m
    → deliver send initial_delay clock delivery s ≡ (
        if leb delivery.max_attempts delivery.attempts
        then (mark_invitation_email_failed clock.mark delivery.id m none true s).1
        else (mark_invitation_email_failed clock.mark delivery.id m
            (some (retry_at initial_delay clock delivery))
            false
            s).1)
unfolding deliver
deliver-failed send initial_delay clock delivery s m out = ground arith

-- A delivery that is in the outbox is settled, whatever the sender returns: its lock is released, and
-- it is sent if the mail went out, failed if that was its last attempt, and else it waits for its next
-- attempt, at the time of the failure and its retry delay.
pub deliver_settles :
    (send : Invitation → Option String) (initial_delay : ℤ) (clock : Clock)
    (delivery old : InvitationEmailDelivery) (s : Store)
    → trim_space delivery.id ≡ delivery.id
    → (delivery.id == "") ≡ false
    → lookup delivery.id s.email_deliveries ≡ some old
    → (d : InvitationEmailDelivery) × (lookup delivery.id
          (deliver send initial_delay clock delivery s).email_deliveries
        ≡ some d)
      × (d.locked_until ≡ none)
      × (d.status ≡ outcome (send delivery.invitation) delivery)
      × (d.next_attempt_at
          ≡ next_time
              (add_duration clock.retry (retry_delay initial_delay delivery.attempts))
              old
              (outcome (send delivery.invitation) delivery))
deliver_settles send initial_delay clock delivery old s t n e =
    elim (Option-cases (send delivery.invitation)) [
      | inl out ↦
          rw (deliver-sent send initial_delay clock delivery s out, out)
            (sent clock.mark old, found_sent clock.mark delivery.id old s t n e, refl, refl, refl)
      | inr (m, out) ↦
          rw (deliver-failed send initial_delay clock delivery s m out, out)
            (elim (Bool-cases (leb delivery.max_attempts delivery.attempts)) [
              | inl last ↦ rw last (
                failed_delivery clock.mark m none true old,
                found_failed clock.mark delivery.id m none true old s t n e,
                refl,
                refl,
                refl,
              )
              | inr more ↦
                  let next = retry_at initial_delay clock delivery in
                  rw more (
                    failed_delivery clock.mark m (some next) false old,
                    found_failed clock.mark delivery.id m (some next) false old s t n e,
                    refl,
                    refl,
                    refl,
                  )
            ])
    ]

-- The retry delay doubles with each attempt: it is the initial delay times 2^(attempt - 1), as long as
-- that is below 2^63.
pub retry_delay-eq-pow :
    (base attempt : ℕ)
    → 1 ≤ attempt
    → base * (2 ^ (attempt - 1)) < 2 ^ 63
    → retry_delay (pos base) attempt ≡ pos (base * (2 ^ (attempt - 1)))
unfolding retry_delay
retry_delay-eq-pow base attempt one less = ground arith
