-- ===== src/Store/Outbox/Claims.antt =====
-- What a worker's claim takes from the outbox, and what it leaves.
use nice_agent.Prelude.{
  ℕ, ◌≤◌, ◌<◌, String, ◌≡◌, refl, sym, subst, true, false, Bool-cases, inl, inr, Option-cases,
  Option, none, some, List, [], ◌∷◌, Map, lookup, lookup-put, eq_iff, arith, length, length-append,
  All, All-concat, ForAll, ForAll-put, keys, Char, ℤ, pos_or, leb, ◌⊎◌, put, lookup-put_self, ◌+◌,
}
use nice_agent.Protocol.Invitation.{Invitation, InvitationEmailDelivery, email_sending}
use nice_agent.Store.{Store}
use nice_agent.Store.Invitations.{invitation_by_id}
use nice_agent.Store.Outbox.{is_suppressed}
use nice_agent.Store.Outbox.Rounds.{
  is_due, Round, skip, give_up, claim, round, round_of, after_round, claim_all,
  claim_due_invitation_emails, locked_at, lock_end, locker, sending,
}

-- A delivery that the loop skips stays as it is.
after_round-skip :
    (f : InvitationEmailDelivery → Round) (j : String) (taken : List InvitationEmailDelivery)
    (m : Map InvitationEmailDelivery) (id : String) {d : InvitationEmailDelivery}
    → lookup id m ≡ some d
    → f d ≡ skip
    → lookup id (after_round j (round_of f (lookup j m)) taken m).1 ≡ some d
after_round-skip f j taken m id e q = grind (arith, lookup-put, eq_iff)

claim_all-skip :
    (f : InvitationEmailDelivery → Round) (limit : ℕ) (ids : List String)
    (taken : List InvitationEmailDelivery) (m : Map InvitationEmailDelivery) (id : String)
    {d : InvitationEmailDelivery}
    → lookup id m ≡ some d
    → f d ≡ skip
    → lookup id (claim_all f limit ids taken m).1 ≡ some d
unfolding claim_all
claim_all-skip f limit [] taken m id e q = e
claim_all-skip f limit (j ∷ ids) taken m id {d} e q = elim (Bool-cases (leb limit (length taken))) [
  | inl full ↦ rw full e
  | inr room ↦ rw room (claim_all-skip f limit ids _ _ id (after_round-skip f j taken m id e q) q)
]

-- A worker's lock keeps the others away: a claim leaves every delivery alone, in the table, that is
-- locked beyond the time of the claim.
pub claim_due-locked :
    (lower : Char → Char) (now : ℕ) (limit : ℤ) (locked_by : String) (lock_until : ℕ) (s : Store)
    (id : String) (d : InvitationEmailDelivery)
    → lookup id s.email_deliveries ≡ some d
    → locked_at now d ≡ true
    → lookup id
        (claim_due_invitation_emails lower now limit locked_by lock_until s).1.email_deliveries
      ≡ some d
unfolding claim_due_invitation_emails
claim_due-locked lower now limit locked_by lock_until s id d e l =
    claim_all-skip (round lower now (locker locked_by) (lock_end now lock_until) s) (pos_or limit 1)
      (keys s.email_deliveries) [] s.email_deliveries id e (unfold round in ground arith)

module _ (f : InvitationEmailDelivery → Round) (limit : ℕ) where
  claim_all-length :
      (ids : List String) (taken : List InvitationEmailDelivery) (m : Map InvitationEmailDelivery)
      → length taken ≤ limit
      → length (claim_all f limit ids taken m).0 ≤ limit
  unfolding claim_all
  claim_all-length [] taken m le = le
  claim_all-length (j ∷ ids) taken m le = elim (Bool-cases (leb limit (length taken))) [
    | inl full ↦ rw full le
    | inr room ↦ rw room (claim_all-length ids _ _ (longer (round_of f (lookup j m)) room))
  ]
    where
      longer :
          (r : Round)
          → leb limit (length taken) ≡ false
          → length (after_round j r taken m).0 ≤ limit
      longer skip room = le
      longer (give_up d) room = le
      longer (claim d) room = ground (arith, length-append taken (d ∷ []))

-- Where each round keeps `P` and claims only what satisfies `Q`, the loop keeps `P` in the table and
-- takes only what satisfies `Q`.
module _ (P Q : InvitationEmailDelivery → Type 0) where
  pub RoundOk : Round → Type 0
  RoundOk skip = Unit
  RoundOk (give_up d) = P d
  RoundOk (claim d) = P d × Q d

  after_round-RoundOk :
      (id : String) (r : Round) (taken : List InvitationEmailDelivery)
      (m : Map InvitationEmailDelivery)
      → RoundOk r
      → All Q taken
      → ForAll (λ _ d. P d) m
      → All Q (after_round id r taken m).0 × ForAll (λ _ d. P d) (after_round id r taken m).1
  unfolding RoundOk
  after_round-RoundOk id skip taken m h t k = (t, k)
  after_round-RoundOk id (give_up d) taken m h t k = (t, ForAll-put (λ _ d. P d) id d m h k)
  after_round-RoundOk id (claim d) taken m (h, q) t k =
      (All-concat Q taken (d ∷ []) t (q, tt), ForAll-put (λ _ d. P d) id d m h k)

  pub claim_all-RoundOk :
      (f : InvitationEmailDelivery → Round)
      → ((d : InvitationEmailDelivery) → P d → RoundOk (f d))
      → (limit : ℕ) (ids : List String) (taken : List InvitationEmailDelivery)
        (m : Map InvitationEmailDelivery)
      → All Q taken
      → ForAll (λ _ d. P d) m
      → All Q (claim_all f limit ids taken m).0
        × ForAll (λ _ d. P d) (claim_all f limit ids taken m).1
  unfolding claim_all
  claim_all-RoundOk f ok_round limit [] taken m t k = (t, k)
  claim_all-RoundOk f ok_round limit (j ∷ ids) taken m t k =
      elim (Bool-cases (leb limit (length taken))) [
        | inl full ↦ rw full (t, k)
        | inr room ↦
            let (t', k') = after_round-RoundOk j (round_of f (lookup j m)) taken m (at j) t k in
            rw room (claim_all-RoundOk f ok_round limit ids _ _ t' k')
      ]
    where
      at : (j : String) → RoundOk (round_of f (lookup j m))
      at j = elim (Option-cases (lookup j m)) [
        | inl e ↦ rw e (unfold RoundOk in tt)
        | inr (d, e) ↦ rw e (ok_round d (k j d e))
      ]

-- A delivery that is due is one of the outbox, as it was before the claim.
abbrev Unchanged : ℕ → Store → InvitationEmailDelivery → Type 0
Unchanged now s d =
    (is_due now d ≡ false) ⊎ ((id : String) × (lookup id s.email_deliveries ≡ some d))

-- What is taken stands in the table, and is skipped by the later rounds.
module _ (f : InvitationEmailDelivery → Round)
    (again : (d d' : InvitationEmailDelivery) → f d ≡ claim d' → f d' ≡ skip) where
  abbrev Kept : Map InvitationEmailDelivery → InvitationEmailDelivery → Type 0
  Kept m d = (id : String) × (lookup id m ≡ some d) × (f d ≡ skip)

  All-Kept :
      (m m' : Map InvitationEmailDelivery) (taken : List InvitationEmailDelivery)
      → ((d : InvitationEmailDelivery) → Kept m d → Kept m' d)
      → All (Kept m) taken
      → All (Kept m') taken
  All-Kept m m' [] g h = tt
  All-Kept m m' (d ∷ taken) g (h, hs) = (g d h, All-Kept m m' taken g hs)

  round_of-claim :
      (o : Option InvitationEmailDelivery) (d' : InvitationEmailDelivery)
      → round_of f o ≡ claim d'
      → f d' ≡ skip
  round_of-claim none d' q = cc
  round_of-claim (some d) d' q = again d d' q

  after_round-Kept :
      (j : String) (r : Round) (taken : List InvitationEmailDelivery)
      (m : Map InvitationEmailDelivery)
      → round_of f (lookup j m) ≡ r
      → All (Kept m) taken
      → All (Kept (after_round j r taken m).1) (after_round j r taken m).0
  after_round-Kept j r taken m q h =
      added r q (All-Kept m (after_round j r taken m).1 taken stays h)
    where
      stays : (d : InvitationEmailDelivery) → Kept m d → Kept (after_round j r taken m).1 d
      stays d (id, e, k) = (
        id,
        subst (λ x. lookup id (after_round j x taken m).1 ≡ some d) q
            (after_round-skip f j taken m id e k),
        k,
      )

      added :
          (x : Round)
          → round_of f (lookup j m) ≡ x
          → All (Kept (after_round j x taken m).1) taken
          → All (Kept (after_round j x taken m).1) (after_round j x taken m).0
      added skip e old = old
      added (give_up d) e old = old
      added (claim d) e old =
          All-concat (Kept (put j d m)) taken (d ∷ []) old
            ((j, lookup-put_self j d m, round_of-claim (lookup j m) d e), tt)

  claim_all-Kept :
      (limit : ℕ) (ids : List String) (taken : List InvitationEmailDelivery)
      (m : Map InvitationEmailDelivery)
      → All (Kept m) taken
      → All (Kept (claim_all f limit ids taken m).1) (claim_all f limit ids taken m).0
  unfolding claim_all
  claim_all-Kept limit [] taken m h = h
  claim_all-Kept limit (j ∷ ids) taken m h = elim (Bool-cases (leb limit (length taken))) [
    | inl full ↦ rw full h
    | inr room ↦
        rw room (
          claim_all-Kept limit ids _ _
            (after_round-Kept j (round_of f (lookup j m)) taken m refl h))
  ]

-- What holds of a delivery that a worker takes at `now`.
pub record Taken (lower : Char → Char) (who : String) (until : ℕ) (s : Store)
    (d : InvitationEmailDelivery) : Type 0 where
  pub sent_out : d.status ≡ email_sending
  pub holder : d.locked_by ≡ who
  pub locked : d.locked_until ≡ some until
  pub within : d.attempts ≤ d.max_attempts
  pub counted :
      (id : String) × (before : InvitationEmailDelivery) × (lookup id s.email_deliveries
        ≡ some before)
      × (d.id ≡ before.id)
      × (d.attempts ≡ before.attempts + 1)
  pub found : invitation_by_id s.invitations d.invitation_id ≡ some d.invitation
  pub open_address :
      is_suppressed lower s.email_suppressions d.invitation.organization_id d.invitation.email
      ≡ false

-- A delivery has not been tried more often than it may be.
abbrev pub Within : InvitationEmailDelivery → Type 0
Within d = d.attempts ≤ d.max_attempts

-- What the rounds keep of the deliveries in the table.
abbrev Sound : ℕ → Store → InvitationEmailDelivery → Type 0
Sound now s d = Within d × Unchanged now s d

RoundOk-cases :
    (P Q : InvitationEmailDelivery → Type 0) (r : Round)
    → ((d : InvitationEmailDelivery) → r ≡ give_up d → P d)
    → ((d : InvitationEmailDelivery) → r ≡ claim d → P d × Q d)
    → RoundOk P Q r
unfolding RoundOk
RoundOk-cases P Q skip g c = tt
RoundOk-cases P Q (give_up d) g c = g d refl
RoundOk-cases P Q (claim d) g c = c d refl

Unchanged-due :
    (now : ℕ) (s : Store) (d : InvitationEmailDelivery)
    → Unchanged now s d
    → is_due now d ≡ true
    → (id : String) × (lookup id s.email_deliveries ≡ some d)
Unchanged-due now s d (inl closed) due = absurd (ground arith)
Unchanged-due now s d (inr there) due = there

module _ (lower : Char → Char) (now : ℕ) (who : String) (until : ℕ) (s : Store)
    (later : now < until) (d d' : InvitationEmailDelivery) where
  round-give_up : round lower now who until s d ≡ give_up d' → Sound now s d → Sound now s d'
  unfolding round
  round-give_up e (h, u) =
      let closed : is_due now d' ≡ false = grind arith in (grind arith, inl closed)

  round-claim :
      round lower now who until s d ≡ claim d'
      → (i : Invitation) × (invitation_by_id s.invitations d.invitation_id ≡ some i)
        × (is_suppressed lower s.email_suppressions i.organization_id i.email ≡ false)
        × (d.attempts < d.max_attempts)
        × (is_due now d ≡ true)
        × (d' ≡ sending now who until i d)
  unfolding round
  round-claim e = grind arith

  round-again : round lower now who until s d ≡ claim d' → round lower now who until s d' ≡ skip
  unfolding round
  round-again e =
      let (i, found, address, less, due, q) = round-claim e in
      let locked : locked_at now d' ≡ true = rw q (ground arith) in ground arith

  round-Taken :
      round lower now who until s d ≡ claim d'
      → Sound now s d
      → Sound now s d' × Taken lower who until s d'
  round-Taken e (h, u) =
      let (i, found, address, less, due, q) = round-claim e in
      let (id, there) = Unchanged-due now s d u due in
      let locked : locked_at now d' ≡ true = rw q (ground arith) in
      (
        (rw q (omega arith), inl (ground arith)),
        subst (Taken lower who until s) (sym q) (record {
          sent_out = refl;
          holder = refl;
          locked = refl;
          within = omega arith;
          counted = (id, d, there, refl, refl);
          found = found;
          open_address = address;
        }),
      )

module _ (lower : Char → Char) (now : ℕ) (who : String) (until : ℕ) (s : Store)
    (later : now < until) where
  round-RoundOk :
      (d : InvitationEmailDelivery)
      → Sound now s d
      → RoundOk (Sound now s) (Taken lower who until s) (round lower now who until s d)
  round-RoundOk d h =
      RoundOk-cases (Sound now s) (Taken lower who until s) (round lower now who until s d)
        (λ d' e. round-give_up lower now who until s later d d' e h)
        (λ d' e. round-Taken lower now who until s later d d' e h)

lock_end-later : (now lock_until : ℕ) → now < lock_end now lock_until
lock_end-later now lock_until = ground arith

-- A delivery that a claim has taken stands in the outbox that the claim leaves.
abbrev pub Stored : Store → InvitationEmailDelivery → Type 0
Stored t d = (id : String) × (lookup id t.email_deliveries ≡ some d)

All-imp :
    (P Q : InvitationEmailDelivery → Type 0) (ds : List InvitationEmailDelivery)
    → ((d : InvitationEmailDelivery) → P d → Q d)
    → All P ds
    → All Q ds
All-imp P Q [] g h = tt
All-imp P Q (d ∷ ds) g (h, hs) = (g d h, All-imp P Q ds g hs)

-- A claim takes at most `limit` deliveries, one where no limit is given. In an outbox whose deliveries
-- are within their attempts, each delivery taken is marked as being sent, is locked by the worker until
-- the lock's end, counts one attempt more than the delivery of the outbox that it was, within its limit,
-- and carries the invitation that it is of, whose address is not suppressed; it stands so in the outbox
-- that the claim leaves; and all deliveries are still within their attempts.
pub claim_due-Taken :
    (lower : Char → Char) (now : ℕ) (limit : ℤ) (locked_by : String) (lock_until : ℕ) (s : Store)
    → ForAll (λ _ d. Within d) s.email_deliveries
    → let claimed = claim_due_invitation_emails lower now limit locked_by lock_until s in
      (length claimed.0 ≤ pos_or limit 1)
      × All (Taken lower (locker locked_by) (lock_end now lock_until) s) claimed.0
      × All (Stored claimed.1) claimed.0
      × ForAll (λ _ d. Within d) claimed.1.email_deliveries
unfolding claim_due_invitation_emails
claim_due-Taken lower now limit locked_by lock_until s h =
    let who = locker locked_by in
    let until = lock_end now lock_until in
    let later = lock_end-later now lock_until in
    let f = round lower now who until s in
    let ids = keys s.email_deliveries in
    let sound =
      claim_all-RoundOk (Sound now s) (Taken lower who until s) f
        (round-RoundOk lower now who until s later) (pos_or limit 1) ids [] s.email_deliveries tt
        (λ k d e. (h k d e, inr (k, e))) in
    let kept =
      claim_all-Kept f (λ d d' e. round-again lower now who until s later d d' e) (pos_or limit 1)
        ids [] s.email_deliveries tt in
    (
      claim_all-length f (pos_or limit 1) ids [] s.email_deliveries (omega arith),
      sound.0,
      All-imp _ _ _ (λ d (id, e, k). (id, e)) kept,
      λ k d e. (sound.1 k d e).0,
    )
