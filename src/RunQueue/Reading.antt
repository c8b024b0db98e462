-- ===== src/RunQueue/Reading.antt =====
-- How the worker of worker.go gets its next message, and how it parks one that was delivered too often.
use nice_agent.Prelude.{
  ℕ, ℤ, pos, negsuc, String, Bool, ◌&&◌, not, true, false, Option, none, some, List, [], ◌∷◌, ◌++◌,
  ◌==◌, is_positive, leb, eqb, trim_space, contains_text, if◌then◌else◌,
}
use nice_agent.RunQueue.{
  Config, DecodeError, DeadLetter, RedisStreamMessage, Traffic, message, queue_empty, read_error,
  Outside, called, value_of,
}

pub data Failure : Type 0 where
  group_failed auto_claim_failed read_failed dead_letter_failed ack_failed : Failure

-- The result of `readNextMessage`; the flag tells that the message was claimed from another consumer.
pub data Next : Type 0 where
  got : RedisStreamMessage → Bool → Next
  nothing_there : Next
  fails : Failure → Next

-- `MaxDeliveries > 0 && count >= MaxDeliveries`
abbrev pub too_often : ℤ → ℕ → Bool
too_often (pos n) count = not (eqb n 0) && leb n count
too_often (negsuc n) count = false

-- A text that is left out where it is empty.
abbrev text_or_none : String → Option String
text_or_none s = if s == "" then none else some s

abbrev pub first_count : Option (List ℕ) → ℕ
first_count none = 0
first_count (some []) = 0
first_count (some (n ∷ ns)) = n

module _ (o : Outside) (cfg : Config) where
  -- `ensureGroup`: a group that is there already is no error.
  unfoldable pub ensure_group : Traffic → Bool × Traffic
  ensure_group t = elim (o.create_group t.calls) [
    | none ↦ (true, called t)
    | some error ↦ (contains_text "BUSYGROUP" error, called t)
  ]

  -- `pendingRetryCount`
  unfoldable pub pending_retry_count : String → Traffic → ℕ × Traffic
  pending_retry_count message_id t = (first_count (o.pending t.calls message_id), called t)

  unfoldable pub dead_letter_of :
      RedisStreamMessage → String → ℕ → Option DecodeError → ℕ → DeadLetter
  dead_letter_of m reason delivery_count cause now = record {
    original_stream = cfg.stream;
    original_id = m.id;
    reason = reason;
    delivery_count = delivery_count;
    dead_lettered_at = now;
    run_id = text_or_none (value_of o.sprint "run_id" m.values);
    attempt_id = text_or_none (value_of o.sprint "attempt_id" m.values);
    error = cause;
    payload = o.marshal m.values;
  }

  -- `deadLetter`: whether it returns no error. A blank stream turns it off.
  unfoldable pub dead_letter :
      RedisStreamMessage → String → ℕ → Option DecodeError → Traffic → Bool × Traffic
  dead_letter m reason delivery_count cause t =
      let entry = dead_letter_of m reason delivery_count cause (o.now t.calls) in
      if trim_space cfg.dead_letter_stream == ""
      then (true, t)
      else if o.add t.calls entry
      then (true, record (called t) { parked = t.parked ++ entry ∷ [] })
      else (false, called t)

  -- `XAck`: whether it returns no error.
  unfoldable pub x_ack : String → Traffic → Bool × Traffic
  x_ack id t = (o.ack t.calls id, record (called t) { acked = t.acked ++ id ∷ [] })

  -- A claimed message that was delivered too often: none, if the loop goes on.
  unfoldable pub park : RedisStreamMessage → ℕ → Traffic → Option Failure × Traffic
  park m count t =
      let (added, t1) = dead_letter m "max_deliveries_exceeded" count none t in
      let (acked, t2) = x_ack m.id t1 in
      if added then (if acked then none else some ack_failed, t2) else (some dead_letter_failed, t1)

  -- The loop of `autoClaimPending`.
  unfoldable pub claim_loop : List RedisStreamMessage → Traffic → Next × Traffic
  claim_loop [] t = (nothing_there, t)
  claim_loop (m ∷ messages) t =
      let (count, t1) = pending_retry_count m.id t in
      let (failure, t2) = park m count t1 in
      let rest = claim_loop messages t2 in
      if too_often cfg.max_deliveries count
      then elim failure [ none ↦ rest | some f ↦ (fails f, t2) ]
      else (got (record m { delivery_count = count }) true, t1)

  -- `autoClaimPending`
  unfoldable pub auto_claim_pending : Traffic → Next × Traffic
  auto_claim_pending t = elim (o.auto_claim t.calls) [
    | none ↦ (fails auto_claim_failed, called t)
    | some messages ↦ claim_loop messages (called t)
  ]

  -- `readNextMessage`
  unfoldable pub read_next_message : Traffic → Next × Traffic
  read_next_message t = elim (o.read_group t.calls) [
    | message m ↦ (got m false, called t)
    | read_error ↦ (fails read_failed, called t)
    | queue_empty ↦
        if is_positive cfg.reclaim_min_idle
        then auto_claim_pending (called t)
        else (nothing_there, called t)
  ]
