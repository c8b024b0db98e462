-- ===== src/Quota/Refund.antt =====
-- A reservation of redis_limiter.go that is committed, released and then rolled back, as when the
-- dispatch of its run fails.
use nice_agent.Prelude.{
  ℤ, pos, ◌+ℤ◌, ◌-ℤ◌, int_laws, is_zero, String, Bool, not, ◌&&◌, true, false, none, some, ◌≡◌,
  refl, sym, subst, ◌∙◌, ◌==◌, arith, Bool-cases, inl, inr, trim_space, eq_refl,
}
use nice_agent.Protocol.Run.{Run, RunUsage, normalize_run_usage}
use nice_agent.Quota.Counters.{
  CounterStore, View, IsCounterStore, is_marker_key, SameCount, active_key, run_marker_key,
}
use nice_agent.Quota.Marker.{MarkerLibrary}
use nice_agent.Quota.Limiter.{
  RedisLimiter, Reservation, commit, rollback, rollback_marker, rollback_active, rollback_hour,
  rollback_tokens, release_run,
}
use nice_agent.Quota.Rollback.{
  AreCounters, active_part, hour_part, token_part, amount_of, Back-hour, rollback_back_of,
}
use nice_agent.Quota.Reserved.{Holds}
use nice_agent.Quota.Released.{IsMarkerLibrary, used_part, settle_part, used_lem, HeldAt, IsNamed}
use nice_agent.Quota.Named.{concat-named, run_marker_key-IsMarker}
use nice_agent.Quota.Cycle.{release-unmarked, release-marked, commit-unmarked, commit-marked}

run_marker_key-named :
    (key_prefix run_id : String) → (run_marker_key key_prefix run_id == "") ≡ false
unfolding run_marker_key
run_marker_key-named key_prefix run_id = concat-named key_prefix ":run:" _ refl

used_part-none : (r : Reservation) (j : String) → used_part r (pos 0) j ≡ pos 0
used_part-none r j = ground arith

sum_none : (c a h t u : ℤ) → t +ℤ u ≡ pos 0 → c +ℤ (a +ℤ h +ℤ t) -ℤ a +ℤ u -ℤ h ≡ c
sum_none c a h t u e =
    let parts : c +ℤ (a +ℤ h +ℤ t) -ℤ a +ℤ u -ℤ h ≡ c +ℤ (t +ℤ u) = omega int_laws in
    parts ∙ rw e (omega int_laws)

-- Nothing is left of a reservation whose run has used no tokens and whose hour is given back.
refund_sum :
    (c : ℤ) (r : Reservation) (j : String)
    → c +ℤ amount_of r j -ℤ active_part r j +ℤ settle_part r (pos 0) j -ℤ hour_part r j ≡ c
unfolding amount_of
refund_sum c r j =
    let tokens : token_part r j +ℤ settle_part r (pos 0) j ≡ pos 0 =
      used_lem r (pos 0) j ∙ used_part-none r j in
    sum_none c (active_part r j) (hour_part r j) (token_part r j) (settle_part r (pos 0) j) tokens

sub_add : (s a : ℤ) → s +ℤ a -ℤ a ≡ s
sub_add s a = omega int_laws

module _ {S : Type 0} {db : CounterStore S} {view : View S} {p : String}
    (law : IsCounterStore p db view) where
  rollback_marker-removed :
      (r : Reservation) (s : S)
      → r.committed ≡ true
      → (r.run_marker_key == "") ≡ false
      → is_marker_key p r.run_marker_key ≡ true
      → view.text s r.run_marker_key ≡ none
      → rollback_marker db r s ≡ (true, false, (db.del r.run_marker_key s).1)
  unfolding rollback_marker
  rollback_marker-removed r s committed named marks gone =
      let removed : (db.del r.run_marker_key s).0 ≡ some 0 =
        rw gone at (law.del_lem r.run_marker_key s marks).0 in
      ground arith

  rollback_marker-empty :
      (r : Reservation) (s : S) → r.run_marker_key ≡ "" → rollback_marker db r s ≡ (true, true, s)
  unfolding rollback_marker
  rollback_marker-empty r s e =
      let empty : (r.run_marker_key == "") ≡ true = rw e (eq_refl "") in ground arith

  rollback_active-kept : (r : Reservation) (s : S) → rollback_active db false r s ≡ (true, s)
  unfolding rollback_active
  rollback_active-kept r s = ground arith

  rollback_tokens-kept : (r : Reservation) (s : S) → rollback_tokens db false r s ≡ (true, s)
  unfolding rollback_tokens
  rollback_tokens-kept r s = ground arith

  -- A rollback that finds its marker removed gives the hour back, and nothing else.
  rollback-removed :
      (r : Reservation) (s : S)
      → r.committed ≡ true
      → (r.run_marker_key == "") ≡ false
      → is_marker_key p r.run_marker_key ≡ true
      → view.text s r.run_marker_key ≡ none
      → AreCounters p r
      → (j : String) → view.count (rollback db r s).2 j ≡ view.count s j -ℤ hour_part r j
  unfolding rollback
  rollback-removed r s committed named marks gone c j =
      let t = (db.del r.run_marker_key s).1 in
      let (removed, counts, texts) = law.del_lem r.run_marker_key s marks in
      let back = Back-hour law r t c in
      rw (rollback_marker-removed r s committed named marks gone, rollback_active-kept r t)
        (rw (rollback_tokens-kept r (rollback_hour db r t).1) (cc (back.counts j, counts j)))

module _ {S : Type 0} {db : CounterStore S} {view : View S} (l : RedisLimiter)
    (law : IsCounterStore l.key_prefix db view) {lib : MarkerLibrary}
    (written : IsMarkerLibrary lib) (run : Run) (project_id : String) (usage : RunUsage)
    (named : (trim_space run.id == "") ≡ false) (s0 s : S) (r : Reservation)
    (holds : Holds law s0 r s) (trimmed : trim_space run.id ≡ run.id)
    (fresh : view.text s (run_marker_key l.key_prefix run.id) ≡ none)
    (idle : (normalize_run_usage usage).total_tokens ≡ 0) (unmarked : r.run_marker_key ≡ "") where
  abbrev committed_one : Bool × Reservation × S
  committed_one = commit db lib l run.id r s

  abbrev released_one : S
  released_one = (release_run db lib l run project_id usage committed_one.2).1

  abbrev with_commit : Reservation
  with_commit = record r { committed = true }

  amount-with_commit : (j : String) → amount_of with_commit j ≡ amount_of r j
  unfolding amount_of
  amount-with_commit j = refl

  -- What a commit leads to when its run is released and it is rolled back.
  abbrev Undone : Bool × Reservation × S → Type 0
  Undone c = SameCount view s0 (rollback db c.1 (release_run db lib l run project_id usage c.2).1).2

  back-unmarked :
      (not r.reserved_active && is_zero r.reserved_tokens) ≡ true
      → SameCount view s0 (rollback db committed_one.1 released_one).2
  back-unmarked none_marked =
      let t = (release_run db lib l run project_id usage s).1 in
      let (fine, counts, texts) =
        release-unmarked l law written run project_id usage named s fresh in
      let back =
        rollback_back_of law with_commit t (rollback_marker-empty law with_commit t unmarked)
          holds.3 in
      subst Undone
        (sym (
          commit-unmarked l law written run project_id usage named s0 s r holds trimmed fresh
            none_marked))
        (λ j. cc (
          back.1 j,
          amount-with_commit j,
          counts j,
          holds.1 j,
          sub_add (view.count s0 j) (amount_of r j),
        ))

  abbrev with_marker : Reservation
  with_marker = record r { run_marker_key = run_marker_key l.key_prefix run.id; committed = true }

  back-marked :
      (not r.reserved_active && is_zero r.reserved_tokens) ≡ false
      → HeldAt (active_key l.key_prefix project_id run.user_id) r
      → IsNamed r
      → SameCount view s0 (rollback db committed_one.1 released_one).2
  back-marked marked held tokens =
      let key = run_marker_key l.key_prefix run.id in
      let (raw, read, fine, counts, texts, kept) =
        commit-marked l law written run project_id usage named s0 s r holds trimmed fresh marked in
      let found : view.text committed_one.2 key ≡ some raw = texts key ∙ rw (eq_refl key) refl in
      let done =
        release-marked l law written run project_id usage named r raw committed_one.2 read found
          held tokens holds.3.2 in
      let gone : view.text released_one key ≡ none = done.2 key ∙ rw (eq_refl key) refl in
      let back =
        rollback-removed law with_marker released_one refl
          (run_marker_key-named l.key_prefix run.id) (run_marker_key-IsMarker l.key_prefix run.id)
          gone holds.3 in
      rw kept
        (λ j. cc (back j, done.1 j, counts j, holds.1 j, idle, refund_sum (view.count s0 j) r j))

  -- A reservation that is committed, whose run is released without having used a token, and that is
  -- rolled back, leaves the counters as they were.
  pub rollback-release :
      HeldAt (active_key l.key_prefix project_id run.user_id) r
      → IsNamed r
      → SameCount view s0 (rollback db committed_one.1 released_one).2
  rollback-release held tokens j =
      elim (Bool-cases (not r.reserved_active && is_zero r.reserved_tokens)) [
        | inl none_marked ↦ back-unmarked none_marked j
        | inr marked ↦ back-marked marked held tokens j
      ]
