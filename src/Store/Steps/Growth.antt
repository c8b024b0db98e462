-- ===== src/Store/Steps/Growth.antt =====
-- The methods of the store only append to the logs of the runs.
use nice_agent.Prelude.{
  ℕ, String, ◌≡◌, sym, ap, ◌∙◌, subst, Option-cases, Bool-cases, inl, inr, ◌==◌, eq_iff, List, [],
  ◌∷◌, ◌++◌, lookup, value_or, append_nil, arith,
}
use nice_agent.Protocol.Event.{RunEvent, RunEventType, Payload}
use nice_agent.Store.{Store}
use nice_agent.Store.Chats.{create_chat, set_chat_archived, add_user_message, add_assistant_message}
use nice_agent.Store.Runs.{claim_run_attempt, update_run_status, save_run_usage}
use nice_agent.Store.Artifacts.{add_workspace, add_artifact, delete_expired_artifacts}
use nice_agent.Store.Events.{events_of, new_event, add_event, subscribe, cancel}
use nice_agent.Store.Steps.Accounts.{AccountStep-SameRuns}
use nice_agent.Store.Steps.{Step, add_event_step, account_step}
use nice_agent.Store.Steps.Numbered.{log-add_event, log-add_event_other}

-- The second log is the first with more at its end.
abbrev pub Extends : List RunEvent → List RunEvent → Type 0
Extends xs ys = (more : List RunEvent) × (ys ≡ xs ++ more)

Extends-same : {xs ys : List RunEvent} → ys ≡ xs → Extends xs ys
Extends-same {xs} q = ([], q ∙ sym (append_nil xs))

add_event-Extends :
    (now : ℕ) (new_id id : String) (typ : RunEventType) (m : String) (p : Payload) (s : Store)
    (j : String)
    → Extends (events_of s j) (events_of (add_event now new_id id typ m p s).1 j)
add_event-Extends now new_id id typ m p s j = elim (Option-cases (lookup id s.runs)) [
  | inl e ↦ Extends-same (log-add_event_other now new_id id typ m p s j (inl e)).0
  | inr (run, e) ↦ elim (Bool-cases (id == j)) [
    | inr ne ↦ Extends-same (log-add_event_other now new_id id typ m p s j (inr ne)).0
    | inl same ↦
        subst (λ k. Extends (events_of s k) (events_of (add_event now new_id id typ m p s).1 k))
          ((eq_iff id j).0 same)
          (
            new_event now new_id id typ m p run s ∷ [],
            (log-add_event now new_id id typ m p s run e).0,
          )
  ]
]

-- A step of the store leaves each log as it is or appends to it.
pub Step-Extends : {s t : Store} (j : String) → Step s t → Extends (events_of s j) (events_of t j)
unfolding create_chat set_chat_archived add_user_message add_assistant_message claim_run_attempt
    update_run_status save_run_usage subscribe cancel add_workspace add_artifact
    delete_expired_artifacts
Step-Extends j (add_event_step now new_id id typ m p) = add_event-Extends now new_id id typ m p _ j
Step-Extends j (account_step a) =
    Extends-same (ap (λ es. value_or [] (lookup j es)) (AccountStep-SameRuns a).events)
Step-Extends j _ = Extends-same (ap (λ es. value_or [] (lookup j es)) (ground arith))
