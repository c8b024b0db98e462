-- ===== src/Quota/Rollback.antt =====
-- What a rollback of redis_limiter.go gives back.
use nice_agent.Prelude.{
  ℤ, pos, ◌+ℤ◌, ◌-ℤ◌, int_laws, is_positive, String, Bool, ◌&&◌, true, false, ◌≡◌, refl,
  if◌then◌else◌, arith, ◌∙◌,
}
use nice_agent.Quota.Counters.{CounterStore, View, IsCounterStore, is_marker_key, at, SameText}
use nice_agent.Quota.Limiter.{
  Reservation, rollback, rollback_marker, rollback_active, rollback_hour, rollback_tokens, settled,
}

-- What a reservation has added to the counter of a key.
abbrev pub active_part : Reservation → String → ℤ
active_part r j = if r.reserved_active then at r.active_key (pos 1) j else pos 0

abbrev pub hour_part : Reservation → String → ℤ
hour_part r j = if r.reserved_hour then at r.hour_key (pos 1) j else pos 0

abbrev pub token_part : Reservation → String → ℤ
token_part r j = if is_positive r.reserved_tokens then at r.token_key r.reserved_tokens j else pos 0

unfoldable pub amount_of : Reservation → String → ℤ
amount_of r j = active_part r j +ℤ hour_part r j +ℤ token_part r j

-- The keys of a reservation are those of counters.
abbrev pub AreCounters : String → Reservation → Type 0
AreCounters p r =
    (is_marker_key p r.active_key ≡ false)
    × (is_marker_key p r.hour_key ≡ false)
    × (is_marker_key p r.token_key ≡ false)

sub_three : (s a b c : ℤ) → s -ℤ a -ℤ b -ℤ c ≡ s -ℤ (a +ℤ b +ℤ c)
sub_three s a b c = omega int_laws

module _ {S : Type 0} {db : CounterStore S} {view : View S} {p : String}
    (law : IsCounterStore p db view) where
  -- A step that met no error, with `n` taken from each counter.
  pub record Back (n : String → ℤ) (s : S) (answer : Bool × S) : Type 0 where
    pub fine : answer.0 ≡ true
    pub counts : (j : String) → view.count answer.1 j ≡ view.count s j -ℤ n j
    pub texts : SameText view s answer.1

  minus_zero : (a : ℤ) → a ≡ a -ℤ pos 0
  minus_zero a = omega int_laws

  -- A step that is left out.
  pub Back-skip : (s : S) → Back (λ j. pos 0) s (true, s)
  Back-skip s = record { fine = refl; counts = λ j. minus_zero (view.count s j); texts = λ j. refl }

  -- A step under a test.
  pub Back-if :
      (b : Bool) (n : String → ℤ) (s : S) (answer : Bool × S)
      → Back n s answer
      → Back (λ j. if b then n j else pos 0) s (if b then answer else (true, s))
  Back-if true n s answer h = h
  Back-if false n s answer h = Back-skip s

  Back-if_released :
      (b : Bool) (n : String → ℤ) (s : S) (answer : Bool × S)
      → Back n s answer
      → Back (λ j. if b then n j else pos 0) s (if b && true then answer else (true, s))
  Back-if_released true n s answer h = h
  Back-if_released false n s answer h = Back-skip s

  pub Back-decr :
      (k : String) (s : S)
      → is_marker_key p k ≡ false
      → Back (at k (pos 1)) s (settled db (db.decr k s))
  Back-decr k s c =
      let (fine, taken) = law.decr_lem k s c in
      record { fine = fine; counts = taken.counts; texts = taken.texts }

  Back-decr_by :
      (k : String) (n : ℤ) (s : S)
      → is_marker_key p k ≡ false
      → Back (at k n) s (settled db (db.decr_by k n s))
  Back-decr_by k n s c =
      let (fine, taken) = law.decr_by_lem k n s c in
      record { fine = fine; counts = taken.counts; texts = taken.texts }

  Back-active :
      (r : Reservation) (s : S)
      → AreCounters p r
      → Back (active_part r) s (rollback_active db true r s)
  unfolding rollback_active
  Back-active r s c =
      Back-if_released r.reserved_active (at r.active_key (pos 1)) s _
        (Back-decr r.active_key s c.0)

  pub Back-hour :
      (r : Reservation) (s : S) → AreCounters p r → Back (hour_part r) s (rollback_hour db r s)
  unfolding rollback_hour
  Back-hour r s c = Back-if r.reserved_hour (at r.hour_key (pos 1)) s _ (Back-decr r.hour_key s c.1)

  Back-tokens :
      (r : Reservation) (s : S)
      → AreCounters p r
      → Back (token_part r) s (rollback_tokens db true r s)
  unfolding rollback_tokens
  Back-tokens r s c =
      Back-if_released (is_positive r.reserved_tokens) (at r.token_key r.reserved_tokens) s _
        (Back-decr_by r.token_key r.reserved_tokens s c.2)

  -- Three steps, one after the other.
  Back-three :
      (a b c : String → ℤ) (s : S) (x : Bool × S) (y : Bool × S) (z : Bool × S)
      → Back a s x
      → Back b x.1 y
      → Back c y.1 z
      → Back (λ j. a j +ℤ b j +ℤ c j) s (x.0 && y.0 && z.0, z.1)
  Back-three a b c s x y z p q r = record {
    fine = ground (arith, p.fine, q.fine, r.fine);
    counts =
        λ j. cc (p.counts j, q.counts j, r.counts j, sub_three (view.count s j) (a j) (b j) (c j));
    texts = λ j. r.texts j ∙ q.texts j ∙ p.texts j;
  }

  rollback_marker-open :
      (r : Reservation) (s : S) → r.committed ≡ false → rollback_marker db r s ≡ (true, true, s)
  unfolding rollback_marker
  rollback_marker-open r s open_r = ground arith

  -- A rollback that gives everything back.
  pub rollback_back_of :
      (r : Reservation) (s : S)
      → rollback_marker db r s ≡ (true, true, s)
      → AreCounters p r
      → ((rollback db r s).0 ≡ true)
        × ((j : String) → view.count (rollback db r s).2 j ≡ view.count s j -ℤ amount_of r j)
        × SameText view s (rollback db r s).2
  unfolding rollback amount_of
  rollback_back_of r s whole c =
      let active = rollback_active db true r s in
      let hours = rollback_hour db r active.1 in
      let tokens = rollback_tokens db true r hours.1 in
      let back =
        Back-three (active_part r) (hour_part r) (token_part r) s active hours tokens
          (Back-active r s c) (Back-hour r active.1 c) (Back-tokens r hours.1 c) in
      rw whole (back.fine, back.counts, back.texts)

  -- A rollback before the commit.
  pub rollback_back :
      (r : Reservation) (s : S)
      → r.committed ≡ false
      → AreCounters p r
      → ((rollback db r s).0 ≡ true)
        × ((j : String) → view.count (rollback db r s).2 j ≡ view.count s j -ℤ amount_of r j)
        × SameText view s (rollback db r s).2
  rollback_back r s open_r c = rollback_back_of r s (rollback_marker-open r s open_r) c
