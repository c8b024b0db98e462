-- ===== src/Quota/Cycle.antt =====
-- A reservation of redis_limiter.go from its commit to the release of its run.
use nice_agent.Prelude.{
  ℤ, pos, ◌+ℤ◌, ◌-ℤ◌, int_laws, is_positive, is_zero, String, Bool, not, ◌&&◌, true, false, Option,
  none, some, ◌≡◌, refl, sym, ap, ◌∙◌, ◌==◌, if◌then◌else◌, arith, Bool-cases, inl, inr, trim_space,
  eq_refl, eq_iff, subst,
}
use nice_agent.Protocol.Run.{Run, RunUsage, normalize_run_usage}
use nice_agent.Quota.Counters.{
  CounterStore, View, IsCounterStore, is_marker_key, SameText, SameCount, active_key,
  run_marker_key,
}
use nice_agent.Quota.Marker.{RunMarker, MarkerLibrary, parse_run_marker}
use nice_agent.Quota.Limiter.{
  RedisLimiter, Reservation, commit, write_marker, marker_of, release_found, release_run,
}
use nice_agent.Quota.Named.{run_marker_key-IsMarker}
use nice_agent.Quota.Rollback.{active_part, hour_part, amount_of}
use nice_agent.Quota.Reserved.{Holds}
use nice_agent.Quota.Released.{
  IsMarkerLibrary, used_part, settle_part, used_lem, HeldAt, IsNamed, Released, release_marker_lem,
}

parse_run_marker_lem :
    (lib : MarkerLibrary) (raw : String) (m : RunMarker)
    → lib.unmarshal raw ≡ (m, true)
    → parse_run_marker lib raw ≡ m
unfolding parse_run_marker
parse_run_marker_lem lib raw m e = rw e

-- The active part is given back, the hour stays, and the reserved tokens become the used ones.
cycle_sum :
    (c actual : ℤ) (r : Reservation) (j : String)
    → c +ℤ amount_of r j -ℤ active_part r j +ℤ settle_part r actual j
      ≡ c +ℤ hour_part r j +ℤ used_part r actual j
unfolding amount_of
cycle_sum c actual r j = rw (← used_lem r actual j) (omega int_laws)

is_zero-unpositive : (n : ℤ) → is_zero n ≡ true → is_positive n ≡ false
is_zero-unpositive n e = ground arith

-- A reservation that a commit writes no marker for.
unmarked_sum :
    (c actual : ℤ) (r : Reservation) (j : String)
    → r.reserved_active ≡ false
    → is_positive r.reserved_tokens ≡ false
    → c +ℤ amount_of r j ≡ c +ℤ hour_part r j +ℤ used_part r actual j
unfolding amount_of
unmarked_sum c actual r j free no_tokens = rw (free, no_tokens) (omega int_laws)

write_marker_lem :
    {S : Type 0} (db : CounterStore S) (lib : MarkerLibrary) (l : RedisLimiter) (key raw : String)
    (r : Reservation) (s : S)
    → lib.marshal (marker_of db lib l r) ≡ some raw
    → (db.set_nx key raw 172800000000000 s).0 ≡ some true
    → write_marker db lib l key r s ≡ (
      true,
      record r { run_marker_key = key; committed = true },
      (db.set_nx key raw 172800000000000 s).1,
    )
unfolding write_marker
write_marker_lem db lib l key raw r s e set = ground arith

module _ {S : Type 0} {db : CounterStore S} {view : View S} (l : RedisLimiter)
    (law : IsCounterStore l.key_prefix db view) {lib : MarkerLibrary}
    (written : IsMarkerLibrary lib) (run : Run) (project_id : String) (usage : RunUsage)
    (named : (trim_space run.id == "") ≡ false) where
  abbrev marker_name : String
  marker_name = run_marker_key l.key_prefix run.id

  marker_name-IsMarker : is_marker_key l.key_prefix marker_name ≡ true
  marker_name-IsMarker = run_marker_key-IsMarker l.key_prefix run.id

  abbrev release : S → Bool × S
  release s = release_run db lib l run project_id usage s

  -- A release of a run without a marker changes nothing.
  pub release-unmarked :
      (s : S)
      → view.text s marker_name ≡ none
      → ((release s).0 ≡ true) × SameCount view s (release s).1 × SameText view s (release s).1
  unfolding release_run
  release-unmarked s e =
      let (found, counts, texts) = law.get_lem marker_name s marker_name-IsMarker in
      rw (named, found ∙ ap some e) (refl, counts, texts)

  -- A store in which the marker of a reservation has been removed.
  release_found_lem :
      (r : Reservation) (raw : String) (s : S)
      → lib.unmarshal raw ≡ (marker_of db lib l r, true)
      → view.text s marker_name ≡ some raw
      → HeldAt (active_key l.key_prefix project_id run.user_id) r
      → IsNamed r
      → is_marker_key l.key_prefix r.token_key ≡ false
      → Released l law lib r usage
          (db.del marker_name s).1
          (release_found db lib l raw run project_id usage s)
  unfolding release_found
  release_found_lem r raw s read e held tokens c =
      let (removed, counts, texts) = law.del_lem marker_name s marker_name-IsMarker in
      let removed_one : (db.del marker_name s).0 ≡ some 1 = rw e at removed in
      rw (removed_one, release_found)
        (rw (parse_run_marker_lem lib raw _ read) (
          release_marker_lem l law lib r run project_id usage (db.del marker_name s).1 held tokens
            c))

  -- A release of a run with a marker.
  pub release-marked :
      (r : Reservation) (raw : String) (s : S)
      → lib.unmarshal raw ≡ (marker_of db lib l r, true)
      → view.text s marker_name ≡ some raw
      → HeldAt (active_key l.key_prefix project_id run.user_id) r
      → IsNamed r
      → is_marker_key l.key_prefix r.token_key ≡ false
      → ((release s).0 ≡ true)
        × ((j : String)
            → view.count (release s).1 j
              ≡ view.count s j
                -ℤ active_part r j
                +ℤ settle_part r (pos (normalize_run_usage usage).total_tokens) j)
        × ((j : String)
            → view.text (release s).1 j ≡ (if marker_name == j then none else view.text s j))
  unfolding release_run
  release-marked r raw s read e held tokens c =
      let (found, counts, texts) = law.get_lem marker_name s marker_name-IsMarker in
      let t = (db.get marker_name s).1 in
      let (removed, del_counts, del_texts) = law.del_lem marker_name t marker_name-IsMarker in
      let done = release_found_lem r raw t read (texts marker_name ∙ e) held tokens c in
      rw (named, found ∙ ap some e)
        (
          done.fine,
          λ j. cc (done.counts j, del_counts j, counts j),
          λ j.
              done.texts j ∙ del_texts j ∙ ap (λ x. if marker_name == j then none else x) (texts j),
        )

  -- What is left of a reservation after its run has been released.
  pub record Cycled (s0 : S) (r : Reservation) (answer : Bool × S) : Type 0 where
    pub fine : answer.0 ≡ true
    pub counts :
        (j : String)
        → view.count answer.1 j
          ≡ view.count s0 j
            +ℤ hour_part r j
            +ℤ used_part r (pos (normalize_run_usage usage).total_tokens) j
    pub texts : SameText view s0 answer.1

  module _ (s0 s : S) (r : Reservation) (holds : Holds law s0 r s)
      (trimmed : trim_space run.id ≡ run.id) (fresh : view.text s marker_name ≡ none) where
    -- A commit that writes a marker.
    pub commit-marked :
        (not r.reserved_active && is_zero r.reserved_tokens) ≡ false
        → (raw : String) × (lib.unmarshal raw ≡ (marker_of db lib l r, true))
          × ((commit db lib l run.id r s).0 ≡ true)
          × SameCount view s (commit db lib l run.id r s).2
          × ((j : String)
              → view.text (commit db lib l run.id r s).2 j
                ≡ (if marker_name == j then some raw else view.text s j))
          × ((commit db lib l run.id r s).1
              ≡ record r { run_marker_key = marker_name; committed = true })
    unfolding commit
    commit-marked marked =
        let (raw, e, read) = written.unmarshal-marshal (marker_of db lib l r) in
        let (set, counts, texts) = law.set_nx_lem marker_name raw _ s marker_name-IsMarker fresh in
        let wrote = write_marker_lem db lib l marker_name raw r s e set in
        (
          raw,
          read,
          rw (named, marked, trimmed, wrote) refl,
          rw (named, marked, trimmed, wrote) counts,
          rw (named, marked, trimmed, wrote) texts,
          rw (named, marked, trimmed, wrote) refl,
        )

    pub commit-unmarked :
        (not r.reserved_active && is_zero r.reserved_tokens) ≡ true
        → commit db lib l run.id r s ≡ (true, record r { committed = true }, s)
    unfolding commit
    commit-unmarked unmarked = rw (named, unmarked)

    -- What is left where the commit has written no marker.
    Cycled-unmarked :
        (not r.reserved_active && is_zero r.reserved_tokens) ≡ true → Cycled s0 r (release s)
    Cycled-unmarked unmarked =
        let (fine, counts, texts) = release-unmarked s fresh in
        let no_tokens = is_zero-unpositive r.reserved_tokens (ground arith) in
        record {
          fine = fine;
          counts = λ j.
              counts j
              ∙ holds.1 j
              ∙ unmarked_sum (view.count s0 j) (pos (normalize_run_usage usage).total_tokens) r j
                  (ground arith) no_tokens;
          texts = λ j. texts j ∙ holds.2 j;
        }

    -- The marker is written and taken away again.
    text_back :
        (raw : String) (j : String) (u t : Option String)
        → u ≡ (if marker_name == j then none else t)
        → t ≡ (if marker_name == j then some raw else view.text s j)
        → u ≡ view.text s0 j
    text_back raw j u t p q = elim (Bool-cases (marker_name == j)) [
      | inl same ↦
          (let p' = rw same at p in
            p'
            ∙ sym (subst (λ k. view.text s k ≡ none) ((eq_iff marker_name j).0 same) fresh)
            ∙ holds.2 j)
      | inr apart ↦ (let p' = rw apart at p in let q' = rw apart at q in p' ∙ q' ∙ holds.2 j)
    ]

    -- From a reservation that holds its amounts: the commit and the release meet no error, and then
    -- only the run of the hour and the tokens that the run has used are counted.
    pub release-commit :
        HeldAt (active_key l.key_prefix project_id run.user_id) r
        → IsNamed r
        → ((commit db lib l run.id r s).0 ≡ true)
          × Cycled s0 r (release (commit db lib l run.id r s).2)
    release-commit held tokens =
        elim (Bool-cases (not r.reserved_active && is_zero r.reserved_tokens)) [
          | inl unmarked ↦ rw (commit-unmarked unmarked) (refl, Cycled-unmarked unmarked)
          | inr marked ↦
              (let (raw, read, fine, counts, texts, kept) = commit-marked marked in
                let t = (commit db lib l run.id r s).2 in
                let done =
                  release-marked r raw t read (texts marker_name ∙ rw (eq_refl marker_name) refl)
                    held tokens holds.3.2 in
                (
                  fine,
                  record {
                    fine = done.0;
                    counts = λ j. cc (
                      done.1 j,
                      counts j,
                      holds.1 j,
                      cycle_sum (view.count s0 j) (pos (normalize_run_usage usage).total_tokens) r
                          j,
                    );
                    texts = λ j. text_back raw j _ _ (done.2 j) (texts j);
                  },
                ))
        ]
