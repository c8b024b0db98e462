-- ===== src/Tests/RunTests.antt =====
-- The life of a run.
use nice_agent.Prelude.{
  String, ◌==◌, if◌then◌else◌, ◌≡◌, refl, some, lookup, arith, ForAll, ForAll-put, put, [], ◌==◌,
  if◌then◌else◌,
}
use nice_agent.Protocol.Run.{Run, running, succeeded}
use nice_agent.Store.{Store, ok, err, attempt_mismatch}
use nice_agent.Store.Runs.{
  claimed_run, claim_run_attempt, check_run_attempt, with_status, update_run_status,
}
use nice_agent.Store.Runs.Lease.{claim-claim_fenced, check-claim, claim_after_expiry}
use nice_agent.Store.Steps.{claim_run_attempt_step, here, next}
use nice_agent.Store.Steps.Terminal.{status_of, Reach-terminal}
use nice_agent.Store.Steps.Consistent.{RunOk, Reach-RunOk}
use nice_agent.Tests.Data.{queued_run, claimed, waiting, busy}

claim-claim_fenced_example :
    claim_run_attempt 30 "run_1" "attempt_b" "runtime_b" 900
      (claim_run_attempt 20 "run_1" "attempt_a" "runtime_a" 600 waiting).1
    ≡ (err attempt_mismatch, (claim_run_attempt 20 "run_1" "attempt_a" "runtime_a" 600 waiting).1)
unfolding claimed_run claim_run_attempt lookup
claim-claim_fenced_example =
    claim-claim_fenced 20 30 "run_1" "attempt_a" "attempt_b" "runtime_a" "runtime_b" 600 900 waiting
      {run = claimed} refl refl refl (omega arith)

check-claim_example :
    check_run_attempt "run_1" "attempt_b"
      (claim_run_attempt 20 "run_1" "attempt_a" "runtime_a" 600 waiting).1
    ≡ (if "attempt_b" == "attempt_a" then ok claimed else err attempt_mismatch)
unfolding claimed_run claim_run_attempt lookup
check-claim_example =
    check-claim 20 "run_1" "attempt_a" "runtime_a" 600 waiting {run = claimed} "attempt_b" refl refl

claim_after_expiry_example :
    (taken : Run) × ((claim_run_attempt 700 "run_1" "attempt_b" "runtime_b" 900 busy).0 ≡ ok taken)
    × (taken.attempt_id ≡ "attempt_b")
    × (taken.attempt_count ≡ 2)
    × (taken.status ≡ running)
    × (taken.lease_expires_at ≡ some 900)
    × (lookup "run_1" (claim_run_attempt 700 "run_1" "attempt_b" "runtime_b" 900 busy).1.runs
        ≡ some taken)
    × ((c : String)
        → check_run_attempt "run_1" c
            (claim_run_attempt 700 "run_1" "attempt_b" "runtime_b" 900 busy).1
          ≡ (if c == "attempt_b" then ok taken else err attempt_mismatch))
unfolding lookup
claim_after_expiry_example =
    claim_after_expiry 700 "run_1" "attempt_b" "runtime_b" 900 busy claimed {lease = 600} refl refl
      refl (omega arith) refl refl

-- A claim and then a completion.
abbrev finished_store : Store
finished_store = (update_run_status 50 "run_1" succeeded "" busy).1

Reach-terminal_example :
    status_of (claim_run_attempt 90 "run_1" "attempt_b" "runtime_b" 900 finished_store).1 "run_1"
    ≡ some succeeded
unfolding with_status update_run_status lookup put
Reach-terminal_example =
    Reach-terminal {s = finished_store} "run_1"
      (next here (claim_run_attempt_step 90 "run_1" "attempt_b" "runtime_b" 900)) refl refl

new_run-RunOk : RunOk "run_1" queued_run
new_run-RunOk = ground arith

queued_run-RunOk : ForAll RunOk waiting.runs
unfolding put lookup
queued_run-RunOk = ForAll-put RunOk "run_1" queued_run [] new_run-RunOk (λ k v e. cc)

Reach-RunOk_example :
    ForAll RunOk (claim_run_attempt 20 "run_1" "attempt_a" "runtime_a" 600 waiting).1.runs
Reach-RunOk_example =
    Reach-RunOk {s = waiting}
      (next here (claim_run_attempt_step 20 "run_1" "attempt_a" "runtime_a" 600)) queued_run-RunOk
