-- ===== src/Mailer.antt =====
-- The worker that empties the e-mail outbox: services/control-plane/internal/mailer/outbox.go. The
-- sender is an argument: `some` of an error text, or `none` where the mail went out. The errors of the
-- marking calls are only logged.
pub mod Settles
use Prim.Native.String
use nice_agent.Prelude.{
  ℕ, ◌+◌, ◌-◌, ◌*◌, ◌^◌, ◌%◌, String, Option, none, some, List, [], ◌∷◌, ltb, leb, eqb,
  if◌then◌else◌, Char, ℤ, pos, negsuc, true, false,
}
use nice_agent.Protocol.Invitation.{Invitation, InvitationEmailDelivery}
use nice_agent.Store.{Store, Result}
use nice_agent.Store.Outbox.{
  mark_invitation_email_sent, mark_invitation_email_failed, enqueue_invitation_email,
}
use nice_agent.Store.Outbox.Rounds.{claim_due_invitation_emails}

-- The value of an `int64` with the given bits.
abbrev pub int64 : ℕ → ℤ
int64 n = let m = n % 2 ^ 64 in if ltb m (2 ^ 63) then pos m else negsuc (2 ^ 64 - 1 - m)

unfoldable pub retry_delay : ℤ → ℕ → ℤ
retry_delay (negsuc _) attempt = pos 0
retry_delay (pos base) attempt =
    if eqb base 0
    then pos 0
    else if leb attempt 1
    then pos base
    else int64 (base * (2 ^ (attempt - 1)))

-- `t.Add(d)`; no time lies before the zero time.
abbrev pub add_duration : ℕ → ℤ → ℕ
add_duration t (pos d) = t + d
add_duration t (negsuc d) = t - (d + 1)

-- The clock at each place of a round that reads it.
pub record Clock : Type 0 where
  pub lock : ℕ
  pub claim : ℕ
  pub retry : ℕ
  pub mark : ℕ

unfoldable pub deliver :
    (Invitation → Option String) → ℤ → Clock → InvitationEmailDelivery → Store → Store
deliver send initial_delay clock delivery s = elim (send delivery.invitation) [
  | none ↦ (mark_invitation_email_sent clock.mark delivery.id s).1
  | some message ↦
      if leb delivery.max_attempts delivery.attempts
      then (mark_invitation_email_failed clock.mark delivery.id message none true s).1
      else (let next = add_duration clock.retry (retry_delay initial_delay delivery.attempts) in
          (mark_invitation_email_failed clock.mark delivery.id message (some next) false s).1)
]

deliver_all :
    (Invitation → Option String) → ℤ → Clock → List InvitationEmailDelivery → Store → Store
deliver_all send initial_delay clock [] s = s
deliver_all send initial_delay clock (delivery ∷ deliveries) s =
    deliver_all send initial_delay clock deliveries (deliver send initial_delay clock delivery s)

-- One pass of a worker, with `locked_by` its name.
unfoldable pub deliver_due :
    (Char → Char) → (Invitation → Option String) → ℤ → ℕ → String → Clock → Store → Store
unfolding deliver_all
deliver_due lower send initial_delay lock_ttl locked_by clock s =
    let (taken, s') =
      claim_due_invitation_emails lower clock.claim (pos 1) locked_by (clock.lock + lock_ttl) s in
    deliver_all send initial_delay clock taken s'
