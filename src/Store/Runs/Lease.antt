-- ===== src/Store/Runs/Lease.antt =====
-- Attempts and leases: one attempt holds a run at a time, and only the holder's reports are taken.
use nice_agent.Prelude.{
  ℕ, refl, ◌+◌, ◌≤◌, ◌<◌, String, ◌≡◌, false, some, lookup, lookup-put, arith, eq_refl, ◌==◌,
  if◌then◌else◌,
}
use nice_agent.Protocol.Run.{Run, running, is_terminal_run_status}
use nice_agent.Store.{Store, ok, err, attempt_mismatch}
use nice_agent.Store.Runs.{claimed_run, claim_run_attempt, check_run_attempt}

-- A claim that returns an unfinished run has made the caller its holder until the lease ends.
claim_lem :
    (now : ℕ) (id a who : String) (lease : ℕ) (s : Store) {run : Run}
    → (claim_run_attempt now id a who lease s).0 ≡ ok run
    → is_terminal_run_status run.status ≡ false
    → (lookup id (claim_run_attempt now id a who lease s).1.runs ≡ some run)
      × (run.attempt_id ≡ a)
      × (run.lease_expires_at ≡ some lease)
      × (run.status ≡ running)
      × ((a == "") ≡ false)
unfolding claimed_run claim_run_attempt
claim_lem now id a who lease s h t = grind (arith, lookup-put, eq_refl)

-- Another attempt's claim meets a lease that still holds.
claim_refused :
    (now : ℕ) (id b other : String) (next_lease : ℕ) (s : Store) (run : Run) {lease : ℕ}
    → lookup id s.runs ≡ some run
    → run.status ≡ running
    → run.lease_expires_at ≡ some lease
    → (run.attempt_id == "") ≡ false
    → (run.attempt_id == b) ≡ false
    → now < lease
    → claim_run_attempt now id b other next_lease s ≡ (err attempt_mismatch, s)
unfolding claim_run_attempt
claim_refused now id b other next_lease s run e st l x y lt = grind arith

-- After attempt `a` has claimed an unfinished run with a lease that lasts beyond `now`, a claim at
-- `now` by any other attempt is refused as a mismatch and leaves the store as it is.
pub claim-claim_fenced :
    (before now : ℕ) (id a b who other : String) (lease next_lease : ℕ) (s : Store) {run : Run}
    → (claim_run_attempt before id a who lease s).0 ≡ ok run
    → is_terminal_run_status run.status ≡ false
    → (a == b) ≡ false
    → now < lease
    → claim_run_attempt now id b other next_lease (claim_run_attempt before id a who lease s).1
      ≡ (err attempt_mismatch, (claim_run_attempt before id a who lease s).1)
claim-claim_fenced before now id a b who other lease next_lease s {run} h t ne lt =
    let (found, holder, until, st, named) = claim_lem before id a who lease s h t in
    claim_refused now id b other next_lease _ run found st until (rw holder named) (rw holder ne) lt

-- After attempt `a` has claimed an unfinished run, the reports of an attempt are accepted exactly
-- if it is `a`; any other, an earlier holder too, is a mismatch.
pub check-claim :
    (now : ℕ) (id a who : String) (lease : ℕ) (s : Store) {run : Run} (c : String)
    → (claim_run_attempt now id a who lease s).0 ≡ ok run
    → is_terminal_run_status run.status ≡ false
    → check_run_attempt id c (claim_run_attempt now id a who lease s).1
      ≡ (if c == a then ok run else err attempt_mismatch)
unfolding check_run_attempt
check-claim now id a who lease s {run} c h t =
    let (found, holder, until, st, named) = claim_lem now id a who lease s h t in
    grind (arith, found, holder, named)

-- An expired lease: at `now` or before, the lease of an unfinished run has ended, and any named
-- attempt may take the run over. The take-over is counted, and the run stands in the store with the new
-- holder: from then on the reports of the new attempt are accepted, and those of any other refused.
pub claim_after_expiry :
    (now : ℕ) (id b other : String) (next_lease : ℕ) (s : Store) (run : Run) {lease : ℕ}
    → lookup id s.runs ≡ some run
    → is_terminal_run_status run.status ≡ false
    → run.lease_expires_at ≡ some lease
    → lease ≤ now
    → (b == "") ≡ false
    → (run.attempt_id == b) ≡ false
    → (taken : Run) × ((claim_run_attempt now id b other next_lease s).0 ≡ ok taken)
      × (taken.attempt_id ≡ b)
      × (taken.attempt_count ≡ run.attempt_count + 1)
      × (taken.status ≡ running)
      × (taken.lease_expires_at ≡ some next_lease)
      × (lookup id (claim_run_attempt now id b other next_lease s).1.runs ≡ some taken)
      × ((c : String)
          → check_run_attempt id c (claim_run_attempt now id b other next_lease s).1
            ≡ (if c == b then ok taken else err attempt_mismatch))
unfolding claim_run_attempt claimed_run
claim_after_expiry now id b other next_lease s run e t l le x y =
    let taken = claimed_run now b other next_lease run in
    let claimed : (claim_run_attempt now id b other next_lease s).0 ≡ ok taken = grind arith in
    let open_run : is_terminal_run_status taken.status ≡ false = refl in
    let (stored, holder, until, st, named) =
      claim_lem now id b other next_lease s {run = taken} claimed open_run in
    (
      taken,
      claimed,
      holder,
      grind arith,
      st,
      until,
      stored,
      λ c. check-claim now id b other next_lease s {run = taken} c claimed open_run,
    )
