-- ===== src/Quota/Limiter.antt =====
-- The limiter of services/control-plane/internal/quota/redis_limiter.go: a reservation for a run, its
-- commit, its rollback and the release of the run. Errors are not told apart; the layout of times and
-- encoding/json are arguments. A limiter without a store, which reserves nothing, is left out.
use nice_agent.Prelude.{
  ℕ, ◌*◌, ℤ, pos, ◌-ℤ◌, gtb, is_positive, String, Bool, not, ◌&&◌, true, false, Option, none, some,
  ◌==◌, if◌then◌else◌, is_some, trim_space, eqb, is_neg, is_zero, ◌||◌, zero, suc,
}
use nice_agent.Protocol.Audit.{ActorContext}
use nice_agent.Protocol.Policy.{ProjectQuotaPolicy}
use nice_agent.Protocol.Run.{Run, RunUsage, normalize_run_usage}
use nice_agent.Quota.Counters.{CounterStore, active_key, hour_key, token_key, run_marker_key}
use nice_agent.Quota.Marker.{RunMarker, MarkerLibrary, parse_run_marker}

-- In nanoseconds.
abbrev hour : ℕ
hour = 3600000000000

pub record RedisLimiter : Type 0 where
  pub key_prefix : String
  pub model_token_reservation_per_run : ℤ

-- `NewLimiterWithStoreAndOptions`
unfoldable pub new_limiter : String → ℤ → RedisLimiter
new_limiter key_prefix tokens = record {
  key_prefix = if trim_space key_prefix == "" then "niceagent:quota" else trim_space key_prefix;
  model_token_reservation_per_run = if gtb (pos 0) tokens then pos 0 else tokens;
}

-- The denial of a quota, with the numbers of its metadata.
pub record Denial : Type 0 where
  pub message : String
  pub quota : String
  pub limit : ℤ
  pub current : ℤ
  pub reserved : Option ℤ

pub record Reservation : Type 0 where
  pub active_key : String
  pub hour_key : String
  pub token_key : String
  pub run_marker_key : String
  pub reserved_tokens : ℤ
  pub reserved_active : Bool
  pub reserved_hour : Bool
  pub committed : Bool

abbrev pub no_reservation : Reservation
no_reservation = record {
  active_key = "";
  hour_key = "";
  token_key = "";
  run_marker_key = "";
  reserved_tokens = pos 0;
  reserved_active = false;
  reserved_hour = false;
  committed = false;
}

-- The end of `ReserveRunWithHint`.
pub data Answer : Type 0 where
  granted : Reservation → Answer
  denied : Denial → Answer
  failed : Answer

unfoldable pub model_token_reservation : RedisLimiter → ℤ → ℤ
model_token_reservation l hint =
    if is_positive hint then hint else l.model_token_reservation_per_run

abbrev pub active_denial : ℤ → ℤ → Denial
active_denial limit current = record {
  message = "已达到当前项目并发任务上限，请稍后再试。";
  quota = "concurrent_runs";
  limit = limit;
  current = current -ℤ pos 1;
  reserved = none;
}

abbrev pub hour_denial : ℤ → ℤ → Denial
hour_denial limit current = record {
  message = "已达到当前项目每小时任务数上限，请稍后再试。";
  quota = "runs_per_hour";
  limit = limit;
  current = current -ℤ pos 1;
  reserved = none;
}

abbrev pub token_denial : ℤ → ℤ → ℤ → Denial
token_denial limit reserved current = record {
  message = "已达到当前项目每日模型 token 上限，请明天再试。";
  quota = "model_tokens_per_day";
  limit = limit;
  current = current -ℤ reserved;
  reserved = some reserved;
}

module _ {S : Type 0} (db : CounterStore S) where
  -- A call that only its error matters of.
  abbrev pub settled : Option ℤ × S → Bool × S
  settled answer = (is_some answer.0, answer.1)

  -- Whether the marker was removed without an error, and whether the counters are to be given back.
  unfoldable pub rollback_marker : Reservation → S → Bool × Bool × S
  rollback_marker r s =
      if r.committed && not (r.run_marker_key == "")
      then (let removed = db.del r.run_marker_key s in
          elim removed.0 [
            | none ↦ (false, false, removed.1)
            | some n ↦ (true, not (eqb n 0), removed.1)
          ])
      else (true, true, s)

  unfoldable pub rollback_active : Bool → Reservation → S → Bool × S
  rollback_active should_release r s =
      if r.reserved_active && should_release then settled (db.decr r.active_key s) else (true, s)

  unfoldable pub rollback_hour : Reservation → S → Bool × S
  rollback_hour r s = if r.reserved_hour then settled (db.decr r.hour_key s) else (true, s)

  unfoldable pub rollback_tokens : Bool → Reservation → S → Bool × S
  rollback_tokens should_release r s =
      if is_positive r.reserved_tokens && should_release
      then settled (db.decr_by r.token_key r.reserved_tokens s)
      else (true, s)

  -- `Rollback`: whether it met no error, the reservation and the store after it.
  unfoldable pub rollback : Reservation → S → Bool × Reservation × S
  rollback r s =
      let marker = rollback_marker r s in
      let active = rollback_active marker.1 r marker.2 in
      let hours = rollback_hour r active.1 in
      let tokens = rollback_tokens marker.1 r hours.1 in
      (
        marker.0 && active.0 && hours.0 && tokens.0,
        record r {
          reserved_active = false;
          reserved_hour = false;
          reserved_tokens = if is_positive r.reserved_tokens then pos 0 else r.reserved_tokens;
        },
        tokens.1,
      )

  -- The reservation among the concurrent runs, after the counter has answered.
  unfoldable pub active_counted : ℤ → String → Reservation → Option ℤ × S → Answer × S
  active_counted limit key r (none, s) = (failed, s)
  active_counted limit key r (some current, s) =
      let held = record r { active_key = key; reserved_active = true } in
      let living = db.expire key (24 * hour) s in
      if not living.0
      then (failed, (rollback held living.1).2)
      else if gtb current limit
      then (denied (active_denial limit current), (db.decr key living.1).1)
      else (granted held, living.1)

  unfoldable pub reserve_active : ℤ → String → Reservation → S → Answer × S
  reserve_active limit key r s =
      if is_positive limit then active_counted limit key r (db.incr key s) else (granted r, s)

  unfoldable pub hour_counted : ℤ → String → Reservation → Option ℤ × S → Answer × S
  hour_counted limit key r (none, s) = (failed, (rollback r s).2)
  hour_counted limit key r (some current, s) =
      let held = record r { hour_key = key; reserved_hour = true } in
      let living = db.expire key (2 * hour) s in
      if not living.0
      then (failed, (rollback held living.1).2)
      else if gtb current limit
      then (denied (hour_denial limit current), (rollback held living.1).2)
      else (granted held, living.1)

  unfoldable pub reserve_hour : ℤ → String → Answer × S → Answer × S
  reserve_hour limit key (granted r, s) =
      if is_positive limit then hour_counted limit key r (db.incr key s) else (granted r, s)
  reserve_hour limit key (denied d, s) = (denied d, s)
  reserve_hour limit key (failed, s) = (failed, s)

  unfoldable pub tokens_counted : ℤ → ℤ → String → Reservation → Option ℤ × S → Answer × S
  tokens_counted limit reserved key r (none, s) = (failed, (rollback r s).2)
  tokens_counted limit reserved key r (some current, s) =
      let held = record r { token_key = key; reserved_tokens = reserved } in
      let living = db.expire key (48 * hour) s in
      if not living.0
      then (failed, (rollback held living.1).2)
      else if gtb current limit
      then (denied (token_denial limit reserved current), (rollback held living.1).2)
      else (granted held, living.1)

  unfoldable pub reserve_tokens : ℤ → ℤ → String → Answer × S → Answer × S
  reserve_tokens limit reserved key (granted r, s) =
      if is_positive limit && is_positive reserved
      then tokens_counted limit reserved key r (db.incr_by key reserved s)
      else (granted r, s)
  reserve_tokens limit reserved key (denied d, s) = (denied d, s)
  reserve_tokens limit reserved key (failed, s) = (failed, s)

  -- `ReserveRunWithHint`; the texts are the hour and the day of the two readings of the clock.
  unfoldable pub reserve_run_with_hint :
      RedisLimiter → String → String → ActorContext → ProjectQuotaPolicy → ℤ → S → Answer × S
  reserve_run_with_hint l hour_text day_text actor policy hint s =
      reserve_tokens policy.max_model_tokens_per_day (model_token_reservation l hint)
        (token_key l.key_prefix actor.project_id actor.user_id day_text)
        (reserve_hour policy.max_runs_per_hour
          (hour_key l.key_prefix actor.project_id actor.user_id hour_text)
          (reserve_active policy.max_concurrent_runs
            (active_key l.key_prefix actor.project_id actor.user_id) no_reservation s))

  module _ (lib : MarkerLibrary) (l : RedisLimiter) where
    -- The marker that a commit writes.
    abbrev pub marker_of : Reservation → RunMarker
    marker_of r = record {
      active_reserved = r.reserved_active;
      token_key = r.token_key;
      token_reserved = r.reserved_tokens;
    }

    unfoldable pub write_marker : String → Reservation → S → Bool × Reservation × S
    write_marker key r s = elim (lib.marshal (marker_of r)) [
      | none ↦ (false, r, s)
      | some raw ↦
          (let answer = db.set_nx key raw (48 * hour) s in
            elim answer.0 [
              | some true ↦ (true, record r { run_marker_key = key; committed = true }, answer.1)
              | other ↦ (false, r, answer.1)
            ])
    ]

    -- `Commit`
    unfoldable pub commit : String → Reservation → S → Bool × Reservation × S
    commit run_id r s =
        if trim_space run_id == ""
        then (false, r, s)
        else if not r.reserved_active && is_zero r.reserved_tokens
        then (true, record r { committed = true }, s)
        else write_marker (run_marker_key l.key_prefix (trim_space run_id)) r s

    unfoldable pub release_active : RunMarker → String → S → Bool × S
    release_active marker key s =
        if marker.active_reserved then settled (db.decr key s) else (true, s)

    -- The tokens that were used beyond the reserved ones are added, those left over are taken back.
    unfoldable pub settle_tokens : RunMarker → ℤ → S → Bool × S
    settle_tokens marker actual s =
        let delta = actual -ℤ marker.token_reserved in
        if not (is_positive marker.token_reserved) || marker.token_key == ""
        then (true, s)
        else if is_positive delta
        then settled (db.incr_by marker.token_key delta s)
        else if is_neg delta
        then settled (db.decr_by marker.token_key (pos 0 -ℤ delta) s)
        else (true, s)

    unfoldable pub release_marker : RunMarker → Run → String → RunUsage → S → Bool × S
    release_marker marker run project_id usage s =
        let active = release_active marker (active_key l.key_prefix project_id run.user_id) s in
        let tokens = settle_tokens marker (pos (normalize_run_usage usage).total_tokens) active.1 in
        (active.0 && tokens.0, tokens.1)

    -- After the marker has been read.
    unfoldable pub release_found : String → Run → String → RunUsage → S → Bool × S
    release_found raw run project_id usage s =
        let removed = db.del (run_marker_key l.key_prefix run.id) s in
        elim removed.0 [
          | none ↦ (false, removed.1)
          | some zero ↦ (true, removed.1)
          | some (suc n) ↦ release_marker (parse_run_marker lib raw) run project_id usage removed.1
        ]

    -- `ReleaseRun`: whether it met no error, and the store after it.
    unfoldable pub release_run : Run → String → RunUsage → S → Bool × S
    release_run run project_id usage s =
        if trim_space run.id == ""
        then (true, s)
        else (let found = db.get (run_marker_key l.key_prefix run.id) s in
            elim found.0 [
              | none ↦ (false, found.1)
              | some none ↦ (true, found.1)
              | some (some raw) ↦ release_found raw run project_id usage found.1
            ])
