-- ===== src/Quota/Room.antt =====
-- A reservation of redis_limiter.go is granted within the limits of the policy only.
use nice_agent.Prelude.{
  ℤ, pos, ◌+ℤ◌, ◌≤ℤ◌, int_laws, gtb, gtb-le, is_positive, String, Bool, not, ◌&&◌, true, false,
  Option, none, some, ◌≡◌, refl, subst, if◌then◌else◌, arith, ◌⊎◌, inl, inr, eq_refl,
}
use nice_agent.Protocol.Audit.{ActorContext}
use nice_agent.Protocol.Policy.{ProjectQuotaPolicy}
use nice_agent.Quota.Counters.{
  CounterStore, View, IsCounterStore, is_marker_key, at, Added, active_key, hour_key, token_key,
}
use nice_agent.Quota.Limiter.{
  RedisLimiter, Reservation, no_reservation, Denial, Answer, granted, denied, failed,
  active_counted, reserve_active, hour_counted, reserve_hour, tokens_counted, reserve_tokens,
  model_token_reservation, reserve_run_with_hint,
}
use nice_agent.Quota.Named.{active_key-IsCounter, hour_key-IsCounter, token_key-IsCounter}
use nice_agent.Quota.Rollback.{active_part, hour_part, token_part, amount_of}
use nice_agent.Quota.Reserved.{Exact, Holds, Holds-none, reserve_hour-Exact}
use nice_agent.Quota.Exact.{reserve_active-Exact, reserve_active-IsFree}

-- What a granted reservation shows.
abbrev Given : {S : Type 0} → Type 0 → Answer × S → Type 0
Given P (granted r, t) = P
Given P (other, t) = Unit {0}

Given-any : {S : Type 0} (P : Type 0) (answer : Answer × S) → P → Given P answer
Given-any P (granted r, t) p = p
Given-any P (denied d, t) p = tt
Given-any P (failed, t) p = tt

Given-step :
    {S : Type 0} (P : Type 0) (living above : Bool) (x u w : S) (d : Denial) (held : Reservation)
    → (above ≡ false → P)
    → Given P
        (if not living then (failed, x) else if above then (denied d, u) else (granted held, w))
Given-step P false above x u w d held h = tt
Given-step P true true x u w d held h = tt
Given-step P true false x u w d held h = h refl

unless_set : (b : Bool) (P : Type 0) → (b ≡ true → P) → (b ≡ false) ⊎ P
unless_set true P h = inr (h refl)
unless_set false P h = inl refl

amount_of-nonneg : (r : Reservation) (j : String) → pos 0 ≤ℤ amount_of r j
unfolding amount_of
amount_of-nonneg r j =
    let a : pos 0 ≤ℤ active_part r j = ground arith in
    let h : pos 0 ≤ℤ hour_part r j = ground arith in
    let t : pos 0 ≤ℤ token_part r j = ground arith in omega int_laws

at_self : (k : String) (n : ℤ) → at k n k ≡ n
at_self k n = rw (eq_refl k)

room_of : (c a n v limit : ℤ) → v ≡ c +ℤ a +ℤ n → pos 0 ≤ℤ a → v ≤ℤ limit → c +ℤ n ≤ℤ limit
room_of c a n v limit e h le =
    let le' : c +ℤ a +ℤ n ≤ℤ limit = subst (λ x. x ≤ℤ limit) e le in omega int_laws

module _ {S : Type 0} {db : CounterStore S} {view : View S} {p : String}
    (law : IsCounterStore p db view) where
  -- A new count that is within the limit shows that there was room for it at the start.
  room :
      (s t t1 : S) (r : Reservation) (key : String) (n v limit : ℤ)
      → Holds law s r t
      → Added view key n t t1 v
      → gtb v limit ≡ false
      → view.count s key +ℤ n ≤ℤ limit
  room s t t1 r key n v limit h added within =
      room_of (view.count s key) (amount_of r key) n v limit
        (cc (added.new, added.counts key, h.1 key, at_self key n)) (amount_of-nonneg r key)
        (gtb-le v limit within)

  active_counted-room :
      (s : S) (limit : ℤ) (key : String) (answer : Option ℤ × S) (v : ℤ)
      → answer.0 ≡ some v
      → Added view key (pos 1) s answer.1 v
      → Given
          (view.count s key +ℤ pos 1 ≤ℤ limit)
          (active_counted db limit key no_reservation answer)
  unfolding active_counted
  active_counted-room s limit key (none, t) v e added = tt
  active_counted-room s limit key (some w, t) v e added =
      Given-step _ (db.expire key _ t).0 (gtb w limit) _ _ _ _ _ (λ within.
        room s s t no_reservation key (pos 1) v limit (Holds-none law s) added (ground arith))

  hour_counted-room :
      (s t : S) (limit : ℤ) (key : String) (r : Reservation) (answer : Option ℤ × S) (v : ℤ)
      → Holds law s r t
      → answer.0 ≡ some v
      → Added view key (pos 1) t answer.1 v
      → Given (view.count s key +ℤ pos 1 ≤ℤ limit) (hour_counted db limit key r answer)
  unfolding hour_counted
  hour_counted-room s t limit key r (none, t1) v h e added = tt
  hour_counted-room s t limit key r (some w, t1) v h e added =
      Given-step _ (db.expire key _ t1).0 (gtb w limit) _ _ _ _ _
        (λ within. room s t t1 r key (pos 1) v limit h added (ground arith))

  tokens_counted-room :
      (s t : S) (limit n : ℤ) (key : String) (r : Reservation) (answer : Option ℤ × S) (v : ℤ)
      → Holds law s r t
      → answer.0 ≡ some v
      → Added view key n t answer.1 v
      → Given (view.count s key +ℤ n ≤ℤ limit) (tokens_counted db limit n key r answer)
  unfolding tokens_counted
  tokens_counted-room s t limit n key r (none, t1) v h e added = tt
  tokens_counted-room s t limit n key r (some w, t1) v h e added =
      Given-step _ (db.expire key _ t1).0 (gtb w limit) _ _ _ _ _
        (λ within. room s t t1 r key n v limit h added (ground arith))

  reserve_active-room :
      (s : S) (limit : ℤ) (key : String)
      → is_marker_key p key ≡ false
      → is_positive limit ≡ true
      → Given (view.count s key +ℤ pos 1 ≤ℤ limit) (reserve_active db limit key no_reservation s)
  unfolding reserve_active
  reserve_active-room s limit key c asked =
      let (v, e, added) = law.incr_lem key s c in
      rw asked (active_counted-room s limit key (db.incr key s) v e added)

  reserve_hour-room :
      (s : S) (limit : ℤ) (key : String) (answer : Answer × S)
      → Exact law s answer
      → is_marker_key p key ≡ false
      → is_positive limit ≡ true
      → Given (view.count s key +ℤ pos 1 ≤ℤ limit) (reserve_hour db limit key answer)
  unfolding reserve_hour
  reserve_hour-room s limit key (granted r, t) h c asked =
      let (v, e, added) = law.incr_lem key t c in
      rw asked (hour_counted-room s t limit key r (db.incr key t) v h e added)
  reserve_hour-room s limit key (denied d, t) h c asked = tt
  reserve_hour-room s limit key (failed, t) h c asked = tt

  reserve_tokens-room :
      (s : S) (limit n : ℤ) (key : String) (answer : Answer × S)
      → Exact law s answer
      → is_marker_key p key ≡ false
      → (is_positive limit && is_positive n) ≡ true
      → Given (view.count s key +ℤ n ≤ℤ limit) (reserve_tokens db limit n key answer)
  unfolding reserve_tokens
  reserve_tokens-room s limit n key (granted r, t) h c asked =
      let (v, e, added) = law.incr_by_lem key n t c in
      rw asked (tokens_counted-room s t limit n key r (db.incr_by key n t) v h e added)
  reserve_tokens-room s limit n key (denied d, t) h c asked = tt
  reserve_tokens-room s limit n key (failed, t) h c asked = tt

-- What an earlier reservation has shown, a later one keeps.
module _ {S : Type 0} (db : CounterStore S) (P : Type 0) where
  reserve_hour-Given :
      (limit : ℤ) (key : String) (answer : Answer × S)
      → Given P answer
      → Given P (reserve_hour db limit key answer)
  unfolding reserve_hour
  reserve_hour-Given limit key (granted r, t) p = Given-any P _ p
  reserve_hour-Given limit key (denied d, t) p = tt
  reserve_hour-Given limit key (failed, t) p = tt

  reserve_tokens-Given :
      (limit n : ℤ) (key : String) (answer : Answer × S)
      → Given P answer
      → Given P (reserve_tokens db limit n key answer)
  unfolding reserve_tokens
  reserve_tokens-Given limit n key (granted r, t) p = Given-any P _ p
  reserve_tokens-Given limit n key (denied d, t) p = tt
  reserve_tokens-Given limit n key (failed, t) p = tt

module _ {S : Type 0} {db : CounterStore S} {view : View S} (l : RedisLimiter)
    (law : IsCounterStore l.key_prefix db view) (actor : ActorContext) (policy : ProjectQuotaPolicy)
    (hour_text day_text : String) (hint : ℤ) (s : S) where
  abbrev active_name : String
  active_name = active_key l.key_prefix actor.project_id actor.user_id

  abbrev hour_name : String
  hour_name = hour_key l.key_prefix actor.project_id actor.user_id hour_text

  abbrev token_name : String
  token_name = token_key l.key_prefix actor.project_id actor.user_id day_text

  abbrev tokens : ℤ
  tokens = model_token_reservation l hint

  abbrev after_active : Answer × S
  after_active = reserve_active db policy.max_concurrent_runs active_name no_reservation s

  abbrev after_hour : Answer × S
  after_hour = reserve_hour db policy.max_runs_per_hour hour_name after_active

  active_name-IsCounter : is_marker_key l.key_prefix active_name ≡ false
  active_name-IsCounter = active_key-IsCounter l.key_prefix actor.project_id actor.user_id

  hour_name-IsCounter : is_marker_key l.key_prefix hour_name ≡ false
  hour_name-IsCounter = hour_key-IsCounter l.key_prefix actor.project_id actor.user_id hour_text

  token_name-IsCounter : is_marker_key l.key_prefix token_name ≡ false
  token_name-IsCounter = token_key-IsCounter l.key_prefix actor.project_id actor.user_id day_text

  after_hour-Exact : Exact law s after_hour
  after_hour-Exact =
      reserve_hour-Exact law s policy.max_runs_per_hour hour_name after_active
        (reserve_active-Exact law s policy.max_concurrent_runs active_name active_name-IsCounter)
        hour_name-IsCounter (reserve_active-IsFree db policy.max_concurrent_runs active_name s)

  -- While the counter store does what `IsCounterStore` says, a run is granted only where each limit of
  -- the policy, if it is set, had room for it when it was asked for: one more concurrent run, one more run in the hour, and the tokens of the run in the day.
  pub reserve_run-room :
      {r : Reservation} {t : S}
      → reserve_run_with_hint db l hour_text day_text actor policy hint s ≡ (granted r, t)
      → ((is_positive policy.max_concurrent_runs ≡ false)
          ⊎ (view.count s active_name +ℤ pos 1 ≤ℤ policy.max_concurrent_runs))
        × ((is_positive policy.max_runs_per_hour ≡ false)
            ⊎ (view.count s hour_name +ℤ pos 1 ≤ℤ policy.max_runs_per_hour))
        × (((is_positive policy.max_model_tokens_per_day && is_positive tokens) ≡ false)
            ⊎ (view.count s token_name +ℤ tokens ≤ℤ policy.max_model_tokens_per_day))
  unfolding reserve_run_with_hint
  reserve_run-room {r} {t} q = (
    unless_set (is_positive policy.max_concurrent_runs) _ (λ asked. subst (Given _) q (
        reserve_tokens-Given db _ policy.max_model_tokens_per_day tokens token_name after_hour (
          reserve_hour-Given db _ policy.max_runs_per_hour hour_name after_active (
            reserve_active-room law s policy.max_concurrent_runs active_name active_name-IsCounter
              asked)))),
    unless_set (is_positive policy.max_runs_per_hour) _ (λ asked. subst (Given _) q (
        reserve_tokens-Given db _ policy.max_model_tokens_per_day tokens token_name after_hour (
          reserve_hour-room law s policy.max_runs_per_hour hour_name after_active
            (reserve_active-Exact law s policy.max_concurrent_runs active_name
              active_name-IsCounter)
            hour_name-IsCounter asked))),
    unless_set (is_positive policy.max_model_tokens_per_day && is_positive tokens) _ (λ asked.
        subst (Given _) q (
          reserve_tokens-room law s policy.max_model_tokens_per_day tokens token_name after_hour
            after_hour-Exact token_name-IsCounter asked)),
  )
