-- ===== src/RunQueue/Parking.antt =====
-- The worker of worker.go acknowledges a message that it claimed from another consumer and does not
-- execute only when it has parked it.
use nice_agent.Prelude.{
  is_positive, ℕ, String, Bool, true, false, Option, none, some, subst, ◌≡◌, refl, sym, ap, ◌∙◌,
  List, [], ◌∷◌, ◌++◌, map, arith, ◌==◌, append_nil, append_assoc, trim_space, Option-cases,
  Bool-cases, inl, inr, ◌⊎◌,
}
use nice_agent.RunQueue.{
  Config, DeadLetter, RedisStreamMessage, Traffic, ReadAnswer, message, read_error, queue_empty,
  Outside, called,
}
use nice_agent.RunQueue.Reading.{
  first_count, got, dead_letter_of, dead_letter, x_ack, park, pending_retry_count, claim_loop,
  auto_claim_pending, read_next_message, too_often,
}

-- The identifiers of parked messages.
abbrev pub parked_ids : List DeadLetter → List String
parked_ids letters = map (λ l. l.original_id) letters

-- The number of deliveries that an answer of Redis on one message tells, none where it is an error or
-- empty.
abbrev pub redis_count : Option (List ℕ) → ℕ
redis_count (some (n ∷ ns)) = n
redis_count other = 0

first_count-redis_count : (answer : Option (List ℕ)) → first_count answer ≡ redis_count answer
first_count-redis_count none = refl
first_count-redis_count (some []) = refl
first_count-redis_count (some (n ∷ ns)) = refl

-- From `t` to `u`, exactly what was parked was acknowledged.
pub record Parked (t u : Traffic) : Type 0 where
  pub letters : List DeadLetter
  pub parked : u.parked ≡ t.parked ++ letters
  pub acked : u.acked ≡ t.acked ++ parked_ids letters

pub Parked-refl : (t : Traffic) → Parked t t
Parked-refl t = record {
  letters = [];
  parked = sym (append_nil t.parked);
  acked = sym (append_nil t.acked);
}

map-append : (xs ys : List DeadLetter) → parked_ids (xs ++ ys) ≡ parked_ids xs ++ parked_ids ys
map-append [] ys = refl
map-append (x ∷ xs) ys = ap (◌∷◌ x.original_id) (map-append xs ys)

pub Parked-trans : {t u v : Traffic} → Parked t u → Parked u v → Parked t v
Parked-trans {t} a b = record {
  letters = a.letters ++ b.letters;
  parked =
      b.parked ∙ ap (λ xs. xs ++ b.letters) a.parked ∙ append_assoc t.parked a.letters b.letters;
  acked =
      b.acked
      ∙ ap (λ xs. xs ++ parked_ids b.letters) a.acked
      ∙ append_assoc t.acked (parked_ids a.letters) (parked_ids b.letters)
      ∙ ap (λ xs. t.acked ++ xs) (sym (map-append a.letters b.letters));
}

-- The same lists.
pub Parked-same : {t u : Traffic} → u.parked ≡ t.parked → u.acked ≡ t.acked → Parked t u
Parked-same {t} p q = record {
  letters = [];
  parked = p ∙ sym (append_nil t.parked);
  acked = q ∙ sym (append_nil t.acked);
}

read-cases :
    (a : ReadAnswer)
    → ((m : RedisStreamMessage) × (a ≡ message m)) ⊎ (a ≡ read_error) ⊎ (a ≡ queue_empty)
read-cases (message m) = inl (m, refl)
read-cases read_error = inr (inl refl)
read-cases queue_empty = inr (inr refl)

module _ (o : Outside) (cfg : Config) where
  -- The stream of dead letters is not blank.
  abbrev pub HasDeadLetters : Type 0
  HasDeadLetters = (trim_space cfg.dead_letter_stream == "") ≡ false

  letter : RedisStreamMessage → ℕ → Traffic → DeadLetter
  letter m count t = dead_letter_of o cfg m "max_deliveries_exceeded" count none (o.now t.calls)

  park-Parked :
      HasDeadLetters
      → (m : RedisStreamMessage) (count : ℕ) (t : Traffic) → Parked t (park o cfg m count t).1
  unfolding park dead_letter x_ack letter dead_letter_of
  park-Parked h m count t = elim (Bool-cases (o.add t.calls (letter m count t))) [
    | inl took ↦
        rw (h, took) (record { letters = letter m count t ∷ []; parked = refl; acked = refl })
    | inr refused ↦ rw (h, refused) (Parked-same refl refl)
  ]

  counted-Parked : (id : String) (t : Traffic) → Parked t (pending_retry_count o cfg id t).1
  unfolding pending_retry_count
  counted-Parked id t = Parked-same refl refl

  -- One round of the loop, with the number of deliveries of its message.
  abbrev deliveries : RedisStreamMessage → Traffic → ℕ
  deliveries m t = (pending_retry_count o cfg m.id t).0

  abbrev after_park : RedisStreamMessage → Traffic → Traffic
  after_park m t = (park o cfg m (deliveries m t) (pending_retry_count o cfg m.id t).1).1

  after_park-Parked :
      HasDeadLetters → (m : RedisStreamMessage) (t : Traffic) → Parked t (after_park m t)
  after_park-Parked h m t =
      Parked-trans (counted-Parked m.id t)
        (park-Parked h m (deliveries m t) (pending_retry_count o cfg m.id t).1)

  claim_loop-Parked :
      HasDeadLetters
      → (messages : List RedisStreamMessage) (t : Traffic)
      → Parked t (claim_loop o cfg messages t).1
  unfolding claim_loop
  claim_loop-Parked h [] t = Parked-refl t
  claim_loop-Parked h (m ∷ messages) t =
      let rest =
        Parked-trans (after_park-Parked h m t) (claim_loop-Parked h messages (after_park m t)) in
      elim (Bool-cases (too_often cfg.max_deliveries (deliveries m t))) [
        | inl often ↦
            elim (Option-cases
              (park o cfg m (deliveries m t) (pending_retry_count o cfg m.id t).1).0) [
                | inl parked ↦ rw (often, parked) rest
                | inr (f, failed) ↦ rw (often, failed) (after_park-Parked h m t)
              ]
        | inr seldom ↦ rw seldom (counted-Parked m.id t)
      ]

  auto_claim_pending-Parked :
      HasDeadLetters → (t : Traffic) → Parked t (auto_claim_pending o cfg t).1
  unfolding auto_claim_pending
  auto_claim_pending-Parked h t = elim (Option-cases (o.auto_claim t.calls)) [
    | inl none_there ↦ rw (none_there, auto_claim_pending) (Parked-same refl refl)
    | inr (messages, q) ↦
        rw (q, auto_claim_pending)
          (Parked-trans (Parked-same refl refl) (claim_loop-Parked h messages (called t)))
  ]

  pub read_next_message-Parked :
      HasDeadLetters → (t : Traffic) → Parked t (read_next_message o cfg t).1
  unfolding read_next_message
  read_next_message-Parked h t =
      let same : Parked t (called t) = Parked-same refl refl in
      let claimed = Parked-trans same (auto_claim_pending-Parked h (called t)) in
      elim (read-cases (o.read_group t.calls)) [
        | inl (m, q) ↦ rw (q, read_next_message) same
        | inr (inl q) ↦ rw (q, read_next_message) same
        | inr (inr q) ↦ elim (Bool-cases (is_positive cfg.reclaim_min_idle)) [
          | inl on ↦ rw (q, on, read_next_message) claimed
          | inr off ↦ rw (q, off, read_next_message) same
        ]
      ]

  -- The last count of a message that Redis gave for a call was below the bound, and stands in the
  -- message.
  abbrev pub IsSeldom : RedisStreamMessage → Type 0
  IsSeldom m =
      (call : ℕ) × (m.delivery_count ≡ redis_count (o.pending call m.id))
      × (too_often cfg.max_deliveries (redis_count (o.pending call m.id)) ≡ false)

  claim_loop-cases :
      (n : RedisStreamMessage) (messages : List RedisStreamMessage) (t : Traffic)
      {m : RedisStreamMessage} {r : Bool}
      → (claim_loop o cfg (n ∷ messages) t).0 ≡ got m r
      → ((claim_loop o cfg messages (after_park n t)).0 ≡ got m r)
        ⊎ ((m ≡ record n { delivery_count = deliveries n t })
            × (too_often cfg.max_deliveries (deliveries n t) ≡ false))
  unfolding claim_loop
  claim_loop-cases n messages t {m} {r} q = ground arith

  deliveries-redis_count :
      (n : RedisStreamMessage) (t : Traffic) → deliveries n t ≡ redis_count (o.pending t.calls n.id)
  unfolding pending_retry_count
  deliveries-redis_count n t = first_count-redis_count (o.pending t.calls n.id)

  -- The messages that the loop hands out were not delivered too often.
  claim_loop-IsSeldom :
      (messages : List RedisStreamMessage) (t : Traffic) {m : RedisStreamMessage} {r : Bool}
      → (claim_loop o cfg messages t).0 ≡ got m r
      → IsSeldom m
  unfolding claim_loop
  claim_loop-IsSeldom [] t q = absurd (ground arith)
  claim_loop-IsSeldom (n ∷ messages) t {m} {r} q =
      elim (claim_loop-cases n messages t {m = m} {r = r} q) [
        | inl later ↦ claim_loop-IsSeldom messages (after_park n t) {m = m} {r = r} later
        | inr (same, seldom) ↦
            (let count = deliveries-redis_count n t in
              subst IsSeldom (sym same) (t.calls, count, rw count at seldom))
      ]

  auto_claim_pending-IsSeldom :
      (t : Traffic) {m : RedisStreamMessage} {r : Bool}
      → (auto_claim_pending o cfg t).0 ≡ got m r
      → IsSeldom m
  unfolding auto_claim_pending
  auto_claim_pending-IsSeldom t {m} {r} q = elim (Option-cases (o.auto_claim t.calls)) [
    | inl none_there ↦ absurd (ground arith)
    | inr (messages, there) ↦ claim_loop-IsSeldom messages (called t) {m = m} {r = r} (ground arith)
  ]

  -- A message that is claimed from another consumer and handed out for execution carries the count
  -- that Redis gave for it when it was asked, none where it answered with an error or nothing, and this
  -- count is below the worker's bound, if it has one.
  pub read_next_message-IsSeldom :
      (t : Traffic) {m : RedisStreamMessage}
      → (read_next_message o cfg t).0 ≡ got m true
      → IsSeldom m
  unfolding read_next_message
  read_next_message-IsSeldom t {m} q = elim (read-cases (o.read_group t.calls)) [
    | inl (n, there) ↦ absurd (ground arith)
    | inr (inl there) ↦ absurd (ground arith)
    | inr (inr there) ↦ auto_claim_pending-IsSeldom (called t) {m = m} {r = true} (ground arith)
  ]
