-- ===== src/Quota/Whole.antt =====
-- The life of a reservation of redis_limiter.go: reserved, committed, released.
use nice_agent.Prelude.{
  ℤ, gtb, is_positive, String, Bool, not, ◌&&◌, true, false, Option, none, some, ◌≡◌, refl, sym,
  subst, ◌∙◌, ◌==◌, if◌then◌else◌, Bool-cases, inl, inr, trim_space,
}
use nice_agent.Protocol.Audit.{ActorContext}
use nice_agent.Protocol.Policy.{ProjectQuotaPolicy}
use nice_agent.Protocol.Run.{Run, RunUsage}
use nice_agent.Quota.Counters.{
  CounterStore, View, IsCounterStore, active_key, token_key, run_marker_key,
}
use nice_agent.Quota.Marker.{MarkerLibrary}
use nice_agent.Quota.Limiter.{
  RedisLimiter, Reservation, no_reservation, Denial, Answer, granted, denied, failed,
  active_counted, reserve_active, hour_counted, reserve_hour, tokens_counted, reserve_tokens,
  reserve_run_with_hint, commit, release_run,
}
use nice_agent.Quota.Reserved.{Exact}
use nice_agent.Quota.Exact.{reserve_run-Exact}
use nice_agent.Quota.Released.{IsMarkerLibrary, HeldAt, IsNamed}
use nice_agent.Quota.Named.{concat-named}
use nice_agent.Quota.Cycle.{Cycled, release-commit}

-- A predicate of the reservation that is granted.
abbrev pub OnGranted : {S : Type 0} → (Reservation → Type 0) → Answer × S → Type 0
OnGranted P (granted r, t) = P r
OnGranted P (other, t) = Unit {0}

OnGranted-step :
    {S : Type 0} (P : Reservation → Type 0) (living above : Bool) (x u w : S) (d : Denial)
    (held : Reservation)
    → P held
    → OnGranted P
        (if not living then (failed, x) else if above then (denied d, u) else (granted held, w))
OnGranted-step P false above x u w d held h = tt
OnGranted-step P true true x u w d held h = tt
OnGranted-step P true false x u w d held h = h

token_key-named :
    (key_prefix project_id user_id day : String)
    → (token_key key_prefix project_id user_id day == "") ≡ false
unfolding token_key
token_key-named key_prefix project_id user_id day =
    concat-named key_prefix ":model_tokens_per_day:" _ refl

-- What the release needs of a reservation.
abbrev pub IsReleasable : String → Reservation → Type 0
IsReleasable key r = HeldAt key r × IsNamed r × (r.run_marker_key ≡ "")

module _ {S : Type 0} (db : CounterStore S) where
  active_counted-IsReleasable :
      (limit : ℤ) (key : String) (answer : Option ℤ × S)
      → OnGranted (IsReleasable key) (active_counted db limit key no_reservation answer)
  unfolding active_counted
  active_counted-IsReleasable limit key (none, t) = tt
  active_counted-IsReleasable limit key (some w, t) =
      OnGranted-step (IsReleasable key) (db.expire key _ t).0 (gtb w limit) _ _ _ _ _
        (inr refl, inl refl, refl)

  reserve_active-IsReleasable :
      (limit : ℤ) (key : String) (s : S)
      → OnGranted (IsReleasable key) (reserve_active db limit key no_reservation s)
  unfolding reserve_active
  reserve_active-IsReleasable limit key s = elim (Bool-cases (is_positive limit)) [
    | inl asked ↦ rw asked (active_counted-IsReleasable limit key (db.incr key s))
    | inr no_limit ↦ rw no_limit (inl refl, inl refl, refl)
  ]

  module _ (name : String) where
    hour_counted-IsReleasable :
        (limit : ℤ) (key : String) (r : Reservation) (answer : Option ℤ × S)
        → IsReleasable name r
        → OnGranted (IsReleasable name) (hour_counted db limit key r answer)
    unfolding hour_counted
    hour_counted-IsReleasable limit key r (none, t) h = tt
    hour_counted-IsReleasable limit key r (some w, t) h =
        OnGranted-step (IsReleasable name) (db.expire key _ t).0 (gtb w limit) _ _ _ _ _ h

    reserve_hour-IsReleasable :
        (limit : ℤ) (key : String) (answer : Answer × S)
        → OnGranted (IsReleasable name) answer
        → OnGranted (IsReleasable name) (reserve_hour db limit key answer)
    unfolding reserve_hour
    reserve_hour-IsReleasable limit key (granted r, t) h = elim (Bool-cases (is_positive limit)) [
      | inl asked ↦ rw asked (hour_counted-IsReleasable limit key r (db.incr key t) h)
      | inr no_limit ↦ rw no_limit h
    ]
    reserve_hour-IsReleasable limit key (denied d, t) h = tt
    reserve_hour-IsReleasable limit key (failed, t) h = tt

    tokens_counted-IsReleasable :
        (limit n : ℤ) (key : String) (r : Reservation) (answer : Option ℤ × S)
        → IsReleasable name r
        → (key == "") ≡ false
        → OnGranted (IsReleasable name) (tokens_counted db limit n key r answer)
    unfolding tokens_counted
    tokens_counted-IsReleasable limit n key r (none, t) h named = tt
    tokens_counted-IsReleasable limit n key r (some w, t) h named =
        OnGranted-step (IsReleasable name) (db.expire key _ t).0 (gtb w limit) _ _ _ _ _
          (h.0, inr named, h.2)

    reserve_tokens-IsReleasable :
        (limit n : ℤ) (key : String) (answer : Answer × S)
        → OnGranted (IsReleasable name) answer
        → (key == "") ≡ false
        → OnGranted (IsReleasable name) (reserve_tokens db limit n key answer)
    unfolding reserve_tokens
    reserve_tokens-IsReleasable limit n key (granted r, t) h named =
        elim (Bool-cases (is_positive limit && is_positive n)) [
          | inl asked ↦
              rw asked (tokens_counted-IsReleasable limit n key r (db.incr_by key n t) h named)
          | inr no_limit ↦ rw no_limit h
        ]
    reserve_tokens-IsReleasable limit n key (denied d, t) h named = tt
    reserve_tokens-IsReleasable limit n key (failed, t) h named = tt

  pub reserve_run-IsReleasable :
      (l : RedisLimiter) (hour_text day_text : String) (actor : ActorContext)
      (policy : ProjectQuotaPolicy) (hint : ℤ) (s : S)
      → OnGranted
          (IsReleasable (active_key l.key_prefix actor.project_id actor.user_id))
          (reserve_run_with_hint db l hour_text day_text actor policy hint s)
  unfolding reserve_run_with_hint
  reserve_run-IsReleasable l hour_text day_text actor policy hint s =
      let name = active_key l.key_prefix actor.project_id actor.user_id in
      reserve_tokens-IsReleasable name _ _ _ _
        (reserve_hour-IsReleasable name _ _ _
          (reserve_active-IsReleasable policy.max_concurrent_runs name s))
        (token_key-named l.key_prefix actor.project_id actor.user_id day_text)

module _ {S : Type 0} {db : CounterStore S} {view : View S} (l : RedisLimiter)
    (law : IsCounterStore l.key_prefix db view) {lib : MarkerLibrary}
    (written : IsMarkerLibrary lib) where
  -- A run of the actor for whom it was reserved, whose identifier has no space around it and no
  -- marker yet: after the commit of its reservation and the release of the run, which meet no error
  -- while the counter store does what `IsCounterStore` says,
  -- the counters differ from those before the reservation only by the run of the hour, where an hour
  -- was reserved, and by the tokens that the run has used, where tokens were reserved. No marker is
  -- left.
  pub release-reserve_run :
      (hour_text day_text : String) (actor : ActorContext) (policy : ProjectQuotaPolicy) (hint : ℤ)
      (s0 : S) (run : Run) (usage : RunUsage) {r : Reservation} {s : S}
      (named : (trim_space run.id == "") ≡ false)
      → reserve_run_with_hint db l hour_text day_text actor policy hint s0 ≡ (granted r, s)
      → run.user_id ≡ actor.user_id
      → trim_space run.id ≡ run.id
      → view.text s0 (run_marker_key l.key_prefix run.id) ≡ none
      → ((commit db lib l run.id r s).0 ≡ true)
        × Cycled l law written run actor.project_id usage named s0 r
            (release_run db lib l run actor.project_id usage (commit db lib l run.id r s).2)
  release-reserve_run hour_text day_text actor policy hint s0 run usage {r} {s} named q user trimmed
        fresh =
      let holds =
        subst (Exact law s0) q (reserve_run-Exact l law hour_text day_text actor policy hint s0) in
      let shape =
        subst (OnGranted (IsReleasable (active_key l.key_prefix actor.project_id actor.user_id))) q
          (reserve_run-IsReleasable db l hour_text day_text actor policy hint s0) in
      release-commit l law written run actor.project_id usage named s0 s r holds trimmed
        (holds.2 (run_marker_key l.key_prefix run.id) ∙ fresh)
        (subst (λ u. HeldAt (active_key l.key_prefix actor.project_id u) r) (sym user) shape.0)
        shape.1
