-- ===== src/Quota/Exact.antt =====
-- The whole of `ReserveRunWithHint` of redis_limiter.go, and its rollback.
use nice_agent.Prelude.{
  ℤ, gtb, is_positive, String, Bool, not, true, false, Option, none, some, ◌≡◌, refl, subst,
  if◌then◌else◌, Bool-cases, inl, inr,
}
use nice_agent.Protocol.Audit.{ActorContext}
use nice_agent.Protocol.Policy.{ProjectQuotaPolicy}
use nice_agent.Quota.Counters.{
  CounterStore, View, IsCounterStore, is_marker_key, SameText, SameCount, active_key, hour_key,
  token_key,
}
use nice_agent.Quota.Limiter.{
  RedisLimiter, Reservation, no_reservation, Denial, Answer, granted, denied, failed, rollback,
  active_counted, reserve_active, hour_counted, reserve_hour, model_token_reservation,
  reserve_run_with_hint,
}
use nice_agent.Quota.Named.{active_key-IsCounter, hour_key-IsCounter, token_key-IsCounter}
use nice_agent.Quota.Reserved.{
  IsFree, IsTokenFree, Exact, Holds-none, active_counted-Exact, reserve_hour-Exact,
  reserve_tokens-Exact, rollback-Holds,
}

IsFree-step :
    {S : Type 0} (living above : Bool) (x u w : S) (d : Denial) (held : Reservation)
    → held.reserved_hour ≡ false
    → is_positive held.reserved_tokens ≡ false
    → IsFree
        (if not living then (failed, x) else if above then (denied d, u) else (granted held, w))
IsFree-step false above x u w d held h p = tt
IsFree-step true true x u w d held h p = tt
IsFree-step true false x u w d held h p = (h, p)

IsTokenFree-step :
    {S : Type 0} (living above : Bool) (x u w : S) (d : Denial) (held : Reservation)
    → is_positive held.reserved_tokens ≡ false
    → IsTokenFree
        (if not living then (failed, x) else if above then (denied d, u) else (granted held, w))
IsTokenFree-step false above x u w d held p = tt
IsTokenFree-step true true x u w d held p = tt
IsTokenFree-step true false x u w d held p = p

module _ {S : Type 0} (db : CounterStore S) where
  active_counted-IsFree :
      (limit : ℤ) (key : String) (answer : Option ℤ × S)
      → IsFree (active_counted db limit key no_reservation answer)
  unfolding active_counted
  active_counted-IsFree limit key (none, t) = tt
  active_counted-IsFree limit key (some w, t) =
      IsFree-step (db.expire key _ t).0 (gtb w limit) _ _ _ _ _ refl refl

  pub reserve_active-IsFree :
      (limit : ℤ) (key : String) (s : S) → IsFree (reserve_active db limit key no_reservation s)
  unfolding reserve_active
  reserve_active-IsFree limit key s = elim (Bool-cases (is_positive limit)) [
    | inl asked ↦ rw asked (active_counted-IsFree limit key (db.incr key s))
    | inr no_limit ↦ rw no_limit (refl, refl)
  ]

  hour_counted-IsTokenFree :
      (limit : ℤ) (key : String) (r : Reservation) (answer : Option ℤ × S)
      → is_positive r.reserved_tokens ≡ false
      → IsTokenFree (hour_counted db limit key r answer)
  unfolding hour_counted
  hour_counted-IsTokenFree limit key r (none, t) p = tt
  hour_counted-IsTokenFree limit key r (some w, t) p =
      IsTokenFree-step (db.expire key _ t).0 (gtb w limit) _ _ _ _ _ p

  pub reserve_hour-IsTokenFree :
      (limit : ℤ) (key : String) (answer : Answer × S)
      → IsFree answer
      → IsTokenFree (reserve_hour db limit key answer)
  unfolding reserve_hour
  reserve_hour-IsTokenFree limit key (granted r, t) free = elim (Bool-cases (is_positive limit)) [
    | inl asked ↦ rw asked (hour_counted-IsTokenFree limit key r (db.incr key t) free.1)
    | inr no_limit ↦ rw no_limit free.1
  ]
  reserve_hour-IsTokenFree limit key (denied d, t) free = tt
  reserve_hour-IsTokenFree limit key (failed, t) free = tt

module _ {S : Type 0} {db : CounterStore S} {view : View S} {p : String}
    (law : IsCounterStore p db view) where
  pub reserve_active-Exact :
      (s : S) (limit : ℤ) (key : String)
      → is_marker_key p key ≡ false
      → Exact law s (reserve_active db limit key no_reservation s)
  unfolding reserve_active
  reserve_active-Exact s limit key c = elim (Bool-cases (is_positive limit)) [
    | inl asked ↦
        (let (v, e, added) = law.incr_lem key s c in
          rw asked (active_counted-Exact law s limit key (db.incr key s) v c e added))
    | inr no_limit ↦ rw no_limit (Holds-none law s)
  ]

module _ {S : Type 0} {db : CounterStore S} {view : View S} (l : RedisLimiter)
    (law : IsCounterStore l.key_prefix db view) where
  -- While the counter store does what `IsCounterStore` says, with the prefix of the limiter, a reservation
  -- does not fail. If it is denied, the store is as it was; if
  -- it is granted, each counter has grown by exactly what the reservation holds, and no text of the
  -- store has changed.
  pub reserve_run-Exact :
      (hour_text day_text : String) (actor : ActorContext) (policy : ProjectQuotaPolicy) (hint : ℤ)
      (s : S)
      → Exact law s (reserve_run_with_hint db l hour_text day_text actor policy hint s)
  unfolding reserve_run_with_hint
  reserve_run-Exact hour_text day_text actor policy hint s =
      let active =
        reserve_active db policy.max_concurrent_runs
          (active_key l.key_prefix actor.project_id actor.user_id) no_reservation s in
      let free =
        reserve_active-IsFree db policy.max_concurrent_runs
          (active_key l.key_prefix actor.project_id actor.user_id) s in
      let hour_name = hour_key l.key_prefix actor.project_id actor.user_id hour_text in
      reserve_tokens-Exact law s policy.max_model_tokens_per_day (model_token_reservation l hint)
        (token_key l.key_prefix actor.project_id actor.user_id day_text)
        (reserve_hour db policy.max_runs_per_hour hour_name active)
        (reserve_hour-Exact law s policy.max_runs_per_hour hour_name active
          (reserve_active-Exact law s policy.max_concurrent_runs
            (active_key l.key_prefix actor.project_id actor.user_id)
            (active_key-IsCounter l.key_prefix actor.project_id actor.user_id))
          (hour_key-IsCounter l.key_prefix actor.project_id actor.user_id hour_text) free)
        (token_key-IsCounter l.key_prefix actor.project_id actor.user_id day_text)
        (reserve_hour-IsTokenFree db policy.max_runs_per_hour hour_name active free)

  -- A reservation that is granted and rolled back before its commit leaves every counter and every
  -- text as it was.
  pub rollback-reserve_run :
      (hour_text day_text : String) (actor : ActorContext) (policy : ProjectQuotaPolicy) (hint : ℤ)
      (s : S) {r : Reservation} {t : S}
      → reserve_run_with_hint db l hour_text day_text actor policy hint s ≡ (granted r, t)
      → SameCount view s (rollback db r t).2 × SameText view s (rollback db r t).2
  rollback-reserve_run hour_text day_text actor policy hint s {r} {t} q =
      rollback-Holds law s t r
        (subst (Exact law s) q (reserve_run-Exact hour_text day_text actor policy hint s))
