-- ===== src/Store/Steps/Consistent.antt =====
-- What holds of every run of a reachable store.
use nice_agent.Prelude.{
  ℕ, String, ◌≡◌, true, false, is_some, arith, eq_iff, ◌==◌, ◌&&◌, ◌||◌, eqb, not, Map, ForAll,
  ForAll-put,
}
use nice_agent.Protocol.Run.{Run, RunStatus, is_terminal_run_status, eq_status}
use nice_agent.Store.{Store}
use nice_agent.Store.Chats.{NewIds, new_run}
use nice_agent.Store.Runs.{claimed_run, with_status}
use nice_agent.Store.Steps.{Reach, here, next}
use nice_agent.Store.Steps.RunMoves.{RunMove, unmoved, added, claimed, moved, used, Step-RunMove}

-- A finish time stands exactly on a finished run; an attempt, its lease and its count come together;
-- a run that has been claimed has been started.
pub record RunOk (id : String) (run : Run) : Type 0 where
  pub named : run.id ≡ id
  pub finished : is_some run.finished_at ≡ is_terminal_run_status run.status
  pub counted : eqb run.attempt_count 0 ≡ (run.attempt_id == "")
  pub leased : (run.attempt_id == "" || is_some run.lease_expires_at) ≡ true
  pub started : (eqb run.attempt_count 0 || is_some run.started_at) ≡ true

new_run-RunOk :
    (now : ℕ) (ids : NewIds) (chat_id user_id : String)
    → RunOk ids.run (new_run now ids chat_id user_id)
unfolding new_run
new_run-RunOk now ids chat_id user_id = ground arith

claimed_run-RunOk :
    (now : ℕ) (id a who : String) (lease : ℕ) (run : Run)
    → is_terminal_run_status run.status ≡ false
    → (a == "") ≡ false
    → RunOk id run
    → RunOk id (claimed_run now a who lease run)
unfolding claimed_run
claimed_run-RunOk now id a who lease run t n h = ground (arith, eq_iff run.attempt_id a)

with_status-RunOk :
    (now : ℕ) (id : String) (status : RunStatus) (msg : String) (run : Run)
    → (is_terminal_run_status run.status && not (eq_status run.status status)) ≡ false
    → RunOk id run
    → RunOk id (with_status now status msg run)
unfolding with_status
with_status-RunOk now id status msg run t h = ground arith

RunMove-RunOk : {s : Store} {m : Map Run} → RunMove s m → ForAll RunOk s.runs → ForAll RunOk m
RunMove-RunOk {s} (unmoved q) h = rw q h
RunMove-RunOk {s} (added now ids chat user _ q) h =
    rw q (ForAll-put RunOk ids.run _ s.runs (new_run-RunOk now ids chat user) h)
RunMove-RunOk {s} (claimed now id a who lease run e t n q) h =
    rw q
      (ForAll-put RunOk id _ s.runs (claimed_run-RunOk now id a who lease run t n (h id run e)) h)
RunMove-RunOk {s} (moved now id status msg run e g q) h =
    rw q (ForAll-put RunOk id _ s.runs (with_status-RunOk now id status msg run g (h id run e)) h)
RunMove-RunOk {s} (used id usage run e q) h =
    let was = h id run e in rw q (ForAll-put RunOk id _ s.runs (ground arith) h)

-- In every store that is reached from one with sound runs, each run stands under its own
-- identifier; it has a finish time exactly if it has succeeded, failed or been canceled; it has an
-- attempt exactly if claims have been counted, and then a lease and a start time too.
pub Reach-RunOk : {s t : Store} → Reach s t → ForAll RunOk s.runs → ForAll RunOk t.runs
Reach-RunOk here h = h
Reach-RunOk (next r step) h = RunMove-RunOk (Step-RunMove step) (Reach-RunOk r h)
