-- ===== src/Store/Steps/RunMoves.antt =====
-- How each method changes the runs of the store, and the induction rule that follows for what holds
-- of every run.
use nice_agent.Prelude.{
  ℕ, String, ◌≡◌, refl, false, ◌&&◌, not, ◌==◌, ◌⊎◌, inl, inr, none, some, lookup, put,
  Option-cases, Map, arith,
}
use nice_agent.Protocol.Run.{
  Run, RunStatus, RunUsage, is_terminal_run_status, eq_status, normalize_run_usage,
}
use nice_agent.Store.{Store}
use nice_agent.Store.Chats.{
  NewIds, new_run, create_chat, set_chat_archived, add_user_message, add_assistant_message,
}
use nice_agent.Store.Runs.{
  claimed_run, claim_run_attempt, with_status, update_run_status, save_run_usage,
}
use nice_agent.Store.Events.{add_event, subscribe, cancel}
use nice_agent.Store.Artifacts.{add_workspace, add_artifact, delete_expired_artifacts}
use nice_agent.Store.Steps.{
  Step, add_user_message_step, claim_run_attempt_step, update_run_status_step, save_run_usage_step,
  set_chat_archived_step, add_assistant_message_step, add_event_step, account_step,
}
use nice_agent.Store.Steps.Accounts.{AccountStep-SameRuns}

pub runs-claim :
    (now : ℕ) (id a who : String) (lease : ℕ) (s : Store) (run : Run)
    → lookup id s.runs ≡ some run
    → ((claim_run_attempt now id a who lease s).1.runs ≡ s.runs)
      ⊎ ((is_terminal_run_status run.status ≡ false)
          × ((a == "") ≡ false)
          × ((claim_run_attempt now id a who lease s).1.runs
              ≡ put id (claimed_run now a who lease run) s.runs))
unfolding claim_run_attempt
runs-claim now id a who lease s run e = ground arith

pub runs-update :
    (now : ℕ) (id : String) (status : RunStatus) (msg : String) (s : Store) (run : Run)
    → lookup id s.runs ≡ some run
    → ((update_run_status now id status msg s).1.runs ≡ s.runs)
      ⊎ (((is_terminal_run_status run.status && not (eq_status run.status status)) ≡ false)
          × ((update_run_status now id status msg s).1.runs
              ≡ put id (with_status now status msg run) s.runs))
unfolding update_run_status
runs-update now id status msg s run e = ground arith

pub runs-save_usage :
    (id : String) (usage : RunUsage) (s : Store) (run : Run)
    → lookup id s.runs ≡ some run
    → (save_run_usage id usage s).1.runs
      ≡ put id (record run { usage = normalize_run_usage usage }) s.runs
unfolding save_run_usage
runs-save_usage id usage s run e = ground arith

pub runs-add_user_message :
    (now : ℕ) (cut : String → String) (ids : NewIds) (chat user content : String) (s : Store)
    → ((add_user_message now cut ids chat user content s).1.runs ≡ s.runs)
      ⊎ ((add_user_message now cut ids chat user content s).1.runs
          ≡ put ids.run (new_run now ids chat user) s.runs)
unfolding new_run add_user_message
runs-add_user_message now cut ids chat user content s = ground arith

-- A method that does not find its run changes none.
runs-claim_missing :
    (now : ℕ) (id a who : String) (lease : ℕ) (s : Store)
    → lookup id s.runs ≡ none
    → (claim_run_attempt now id a who lease s).1.runs ≡ s.runs
unfolding claim_run_attempt
runs-claim_missing now id a who lease s e = ground arith

runs-update_missing :
    (now : ℕ) (id : String) (status : RunStatus) (msg : String) (s : Store)
    → lookup id s.runs ≡ none
    → (update_run_status now id status msg s).1.runs ≡ s.runs
unfolding update_run_status
runs-update_missing now id status msg s e = ground arith

runs-save_usage_missing :
    (id : String) (usage : RunUsage) (s : Store)
    → lookup id s.runs ≡ none
    → (save_run_usage id usage s).1.runs ≡ s.runs
unfolding save_run_usage
runs-save_usage_missing id usage s e = ground arith

-- What a step makes of the runs of `s`.
pub data RunMove (s : Store) : Map Run → Type 0 where
  unmoved : {m : Map Run} → m ≡ s.runs → RunMove s m
  added :
      {m : Map Run} (now : ℕ) (ids : NewIds) (chat user : String)
      → lookup ids.run s.runs ≡ none
      → m ≡ put ids.run (new_run now ids chat user) s.runs
      → RunMove s m
  claimed :
      {m : Map Run} (now : ℕ) (id a who : String) (lease : ℕ) (run : Run)
      → lookup id s.runs ≡ some run
      → is_terminal_run_status run.status ≡ false
      → (a == "") ≡ false
      → m ≡ put id (claimed_run now a who lease run) s.runs
      → RunMove s m
  moved :
      {m : Map Run} (now : ℕ) (id : String) (status : RunStatus) (msg : String) (run : Run)
      → lookup id s.runs ≡ some run
      → (is_terminal_run_status run.status && not (eq_status run.status status)) ≡ false
      → m ≡ put id (with_status now status msg run) s.runs
      → RunMove s m
  used :
      {m : Map Run} (id : String) (usage : RunUsage) (run : Run)
      → lookup id s.runs ≡ some run
      → m ≡ put id (record run { usage = usage }) s.runs
      → RunMove s m

-- Every step of the store moves its runs in one of these ways.
pub Step-RunMove : {s t : Store} → Step s t → RunMove s t.runs
unfolding create_chat set_chat_archived add_assistant_message add_event subscribe cancel
    add_workspace add_artifact delete_expired_artifacts
Step-RunMove {s} (add_user_message_step now cut ids chat user content fresh) =
    elim (runs-add_user_message now cut ids chat user content s) [
      | inl q ↦ unmoved q
      | inr q ↦ added now ids chat user fresh q
    ]
Step-RunMove {s} (claim_run_attempt_step now id a who lease) =
    elim (Option-cases (lookup id s.runs)) [
      | inl e ↦ unmoved (runs-claim_missing now id a who lease s e)
      | inr (run, e) ↦ elim (runs-claim now id a who lease s run e) [
        | inl q ↦ unmoved q
        | inr (t, n, q) ↦ claimed now id a who lease run e t n q
      ]
    ]
Step-RunMove {s} (update_run_status_step now id status msg) =
    elim (Option-cases (lookup id s.runs)) [
      | inl e ↦ unmoved (runs-update_missing now id status msg s e)
      | inr (run, e) ↦ elim (runs-update now id status msg s run e) [
        | inl q ↦ unmoved q
        | inr (g, q) ↦ moved now id status msg run e g q
      ]
    ]
Step-RunMove {s} (save_run_usage_step id usage) = elim (Option-cases (lookup id s.runs)) [
  | inl e ↦ unmoved (runs-save_usage_missing id usage s e)
  | inr (run, e) ↦ used id (normalize_run_usage usage) run e (runs-save_usage id usage s run e)
]
Step-RunMove {s} (set_chat_archived_step now chat user archived) = unmoved (ground arith)
Step-RunMove {s} (add_assistant_message_step now i j k l) = unmoved (ground arith)
Step-RunMove {s} (add_event_step now i j typ m p) = unmoved (ground arith)
Step-RunMove (account_step a) = unmoved (AccountStep-SameRuns a).runs
Step-RunMove _ = unmoved refl
