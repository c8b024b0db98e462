-- ===== src/Quota/Reserved.antt =====
-- What a reservation of redis_limiter.go does to the counters.
use nice_agent.Prelude.{
  ℕ, ℤ, pos, ◌+ℤ◌, ◌-ℤ◌, int_laws, gtb, is_positive, String, not, ◌&&◌, true, false, Option, none,
  some, ◌≡◌, refl, ◌∙◌, if◌then◌else◌, arith, Bool-cases, inl, inr,
}
use nice_agent.Quota.Counters.{
  CounterStore, View, IsCounterStore, is_marker_key, at, SameText, SameCount, Added,
}
use nice_agent.Quota.Limiter.{
  Reservation, no_reservation, Denial, Answer, granted, denied, failed, rollback, active_counted,
  hour_counted, reserve_hour, tokens_counted, reserve_tokens, active_denial, hour_denial,
  token_denial,
}
use nice_agent.Quota.Named.{empty_key-IsCounter}
use nice_agent.Quota.Rollback.{AreCounters, amount_of, rollback_back}

add_regroup : (s a n : ℤ) → s +ℤ a +ℤ n ≡ s +ℤ (a +ℤ n)
add_regroup s a n = omega int_laws

sub_add : (s a : ℤ) → s +ℤ a -ℤ a ≡ s
sub_add s a = omega int_laws

module _ (r : Reservation) (key j : String) where
  amount-active :
      r.reserved_active ≡ false
      → amount_of (record r { active_key = key; reserved_active = true }) j
        ≡ amount_of r j +ℤ at key (pos 1) j
  unfolding amount_of
  amount-active e = rw e (omega int_laws)

  amount-hour :
      r.reserved_hour ≡ false
      → amount_of (record r { hour_key = key; reserved_hour = true }) j
        ≡ amount_of r j +ℤ at key (pos 1) j
  unfolding amount_of
  amount-hour e = rw e (omega int_laws)

  amount-tokens :
      (n : ℤ)
      → is_positive r.reserved_tokens ≡ false
      → is_positive n ≡ true
      → amount_of (record r { token_key = key; reserved_tokens = n }) j
        ≡ amount_of r j +ℤ at key n j
  unfolding amount_of
  amount-tokens n e p = rw (e, p) (omega int_laws)

amount-none : (j : String) → amount_of no_reservation j ≡ pos 0
unfolding amount_of
amount-none j = omega int_laws

eq_add_none : (s a : ℤ) → a ≡ pos 0 → s ≡ s +ℤ a
eq_add_none s a e = rw e (omega int_laws)

none_add : (a : ℤ) → pos 0 +ℤ a ≡ a
none_add a = omega int_laws

-- An answer that has reserved no hour, or no tokens, yet.
abbrev pub IsTokenFree : {S : Type 0} → Answer × S → Type 0
IsTokenFree (granted r, t) = is_positive r.reserved_tokens ≡ false
IsTokenFree (other, t) = Unit {0}

abbrev pub IsFree : {S : Type 0} → Answer × S → Type 0
IsFree (granted r, t) = (r.reserved_hour ≡ false) × (is_positive r.reserved_tokens ≡ false)
IsFree (other, t) = Unit {0}

module _ {S : Type 0} {db : CounterStore S} {view : View S} {p : String}
    (law : IsCounterStore p db view) where
  abbrev pub SameStore : S → S → Type 0
  SameStore s t = SameCount view s t × SameText view s t

  -- Where the counters are as in `s` with the amounts of `r`.
  abbrev pub Holds : S → Reservation → S → Type 0
  Holds s r t =
      (r.committed ≡ false)
      × ((j : String) → view.count t j ≡ view.count s j +ℤ amount_of r j)
      × SameText view s t
      × AreCounters p r

  -- What an answer says of the store before and after it.
  abbrev pub Exact : S → Answer × S → Type 0
  Exact s (granted r, t) = Holds s r t
  Exact s (denied d, t) = SameCount view s t × SameText view s t
  Exact s (failed, t) = ⊥

  pub rollback-Holds : (s t : S) (r : Reservation) → Holds s r t → SameStore s (rollback db r t).2
  rollback-Holds s t r h =
      let back = rollback_back law r t h.0 h.3 in
      (λ j. cc (back.1 j, h.1 j, sub_add (view.count s j) (amount_of r j)), λ j. back.2 j ∙ h.2 j)

  -- The end of each of the three reservations.
  Exact-step :
      (s s1 x : S) (held : Reservation) (key : String) (ttl : ℕ) (v limit : ℤ) (d : Denial)
      (u : S → S)
      → is_marker_key p key ≡ false
      → Holds s held s1
      → ((t : S) → Holds s held t → SameStore s (u t))
      → Exact s (
          if not (db.expire key ttl s1).0
          then (failed, x)
          else if gtb v limit
          then (denied d, u (db.expire key ttl s1).1)
          else (granted held, (db.expire key ttl s1).1))
  Exact-step s s1 x held key ttl v limit d u c h back =
      let (fine, counts, texts) = law.expire_lem key ttl s1 c in
      let living : Holds s held (db.expire key ttl s1).1 =
        (h.0, λ j. counts j ∙ h.1 j, λ j. texts j ∙ h.2 j, h.3) in
      rw fine (elim (Bool-cases (gtb v limit)) [
        | inl above ↦ rw above (back (db.expire key ttl s1).1 living)
        | inr below ↦ rw below living
      ])

  -- A counter that has grown by what the new reservation holds.
  Holds-Added :
      (s t t1 : S) (r held : Reservation) (key : String) (n v : ℤ)
      → Holds s r t
      → Added view key n t t1 v
      → held.committed ≡ false
      → AreCounters p held
      → ((j : String) → amount_of held j ≡ amount_of r j +ℤ at key n j)
      → Holds s held t1
  Holds-Added s t t1 r held key n v h added open_r c amounts = (
    open_r,
    λ j. cc (
      added.counts j,
      h.1 j,
      amounts j,
      add_regroup (view.count s j) (amount_of r j) (at key n j),
    ),
    λ j. added.texts j ∙ h.2 j,
    c,
  )

  pub Holds-none : (s : S) → Holds s no_reservation s
  Holds-none s = (
    refl,
    λ j. eq_add_none (view.count s j) (amount_of no_reservation j) (amount-none j),
    λ j. refl,
    (empty_key-IsCounter p, empty_key-IsCounter p, empty_key-IsCounter p),
  )

  -- The denial of a concurrent run takes back its own count.
  decr-Holds :
      (s t : S) (key : String)
      → Holds s (record no_reservation { active_key = key; reserved_active = true }) t
      → SameStore s (db.decr key t).1
  decr-Holds s t key h =
      let (fine, taken) = law.decr_lem key t h.3.0 in
      (
        λ j. cc (
          taken.counts j,
          h.1 j,
          amount-active no_reservation key j refl,
          amount-none j,
          none_add (at key (pos 1) j),
          sub_add (view.count s j) (at key (pos 1) j),
        ),
        λ j. taken.texts j ∙ h.2 j,
      )

  hour_counted-Exact :
      (s t : S) (limit : ℤ) (key : String) (r : Reservation) (answer : Option ℤ × S) (v : ℤ)
      → Holds s r t
      → r.reserved_hour ≡ false
      → is_marker_key p key ≡ false
      → answer.0 ≡ some v
      → Added view key (pos 1) t answer.1 v
      → Exact s (hour_counted db limit key r answer)
  unfolding hour_counted
  hour_counted-Exact s t limit key r (none, t1) v h free c e added = cc
  hour_counted-Exact s t limit key r (some w, t1) v h free c e added =
      let held = record r { hour_key = key; reserved_hour = true } in
      Exact-step s t1 _ held key _ w limit (hour_denial limit w) (λ u. (rollback db held u).2) c
        (Holds-Added s t t1 r held key (pos 1) v h added h.0 (h.3.0, c, h.3.2)
          (λ j. amount-hour r key j free))
        (λ u living. rollback-Holds s u held living)

  tokens_counted-Exact :
      (s t : S) (limit reserved : ℤ) (key : String) (r : Reservation) (answer : Option ℤ × S)
      (v : ℤ)
      → Holds s r t
      → is_positive r.reserved_tokens ≡ false
      → is_positive reserved ≡ true
      → is_marker_key p key ≡ false
      → answer.0 ≡ some v
      → Added view key reserved t answer.1 v
      → Exact s (tokens_counted db limit reserved key r answer)
  unfolding tokens_counted
  tokens_counted-Exact s t limit reserved key r (none, t1) v h free pos_r c e added = cc
  tokens_counted-Exact s t limit reserved key r (some w, t1) v h free pos_r c e added =
      let held = record r { token_key = key; reserved_tokens = reserved } in
      Exact-step s t1 _ held key _ w limit (token_denial limit reserved w)
        (λ u. (rollback db held u).2) c
        (Holds-Added s t t1 r held key reserved v h added h.0 (h.3.0, h.3.1, c)
          (λ j. amount-tokens r key j reserved free pos_r))
        (λ u living. rollback-Holds s u held living)

  pub active_counted-Exact :
      (s : S) (limit : ℤ) (key : String) (answer : Option ℤ × S) (v : ℤ)
      → is_marker_key p key ≡ false
      → answer.0 ≡ some v
      → Added view key (pos 1) s answer.1 v
      → Exact s (active_counted db limit key no_reservation answer)
  unfolding active_counted
  active_counted-Exact s limit key (none, t1) v c e added = cc
  active_counted-Exact s limit key (some w, t1) v c e added =
      let held = record no_reservation { active_key = key; reserved_active = true } in
      Exact-step s t1 _ held key _ w limit (active_denial limit w) (λ u. (db.decr key u).1) c
        (Holds-Added s s t1 no_reservation held key (pos 1) v (Holds-none s) added refl
          (c, empty_key-IsCounter p, empty_key-IsCounter p)
          (λ j. amount-active no_reservation key j refl))
        (λ u living. decr-Holds s u key living)

  pub reserve_hour-Exact :
      (s : S) (limit : ℤ) (key : String) (answer : Answer × S)
      → Exact s answer
      → is_marker_key p key ≡ false
      → IsFree answer
      → Exact s (reserve_hour db limit key answer)
  unfolding reserve_hour
  reserve_hour-Exact s limit key (granted r, t) h c free = elim (Bool-cases (is_positive limit)) [
    | inl asked ↦
        (let (v, e, added) = law.incr_lem key t c in
          rw asked (hour_counted-Exact s t limit key r (db.incr key t) v h free.0 c e added))
    | inr no_limit ↦ rw no_limit h
  ]
  reserve_hour-Exact s limit key (denied d, t) h c free = h
  reserve_hour-Exact s limit key (failed, t) h c free = h

  pub reserve_tokens-Exact :
      (s : S) (limit reserved : ℤ) (key : String) (answer : Answer × S)
      → Exact s answer
      → is_marker_key p key ≡ false
      → IsTokenFree answer
      → Exact s (reserve_tokens db limit reserved key answer)
  unfolding reserve_tokens
  reserve_tokens-Exact s limit reserved key (granted r, t) h c free =
      elim (Bool-cases (is_positive limit && is_positive reserved)) [
        | inl asked ↦
            (let (v, e, added) = law.incr_by_lem key reserved t c in
              rw asked (
                tokens_counted-Exact s t limit reserved key r (db.incr_by key reserved t) v h free
                  (ground arith) c e added))
        | inr no_limit ↦ rw no_limit h
      ]
  reserve_tokens-Exact s limit reserved key (denied d, t) h c free = h
  reserve_tokens-Exact s limit reserved key (failed, t) h c free = h
