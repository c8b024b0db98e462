-- ===== src/Store/Steps/Numbered.antt =====
-- The event log of a run is numbered 1, 2, 3, … without a gap, so a replay misses nothing.
use nice_agent.Prelude.{
  Option-cases, Bool-cases, subst, sym, ap, ap₂, ◌∙◌, ℕ, suc, ◌+◌, ◌≤◌, String, ◌≡◌, refl, false,
  zero, ◌==◌, lookup-put_self, ◌⊎◌, inl, inr, none, some, List, [], ◌∷◌, ◌++◌, lookup, lookup-put,
  ltb, keep, drop, drop-append_le, length, length-append, eq_iff, arith,
}
use nice_agent.Protocol.Run.{Run}
use nice_agent.Protocol.Event.{RunEvent, RunEventType, Payload}
use nice_agent.Store.{Store, ok}
use nice_agent.Store.Chats.{create_chat, set_chat_archived, add_user_message, add_assistant_message}
use nice_agent.Store.Runs.{claim_run_attempt, update_run_status, save_run_usage}
use nice_agent.Store.Events.{
  events_of, seq_of, new_event, add_event, list_events, subscribe, cancel,
}
use nice_agent.Store.Artifacts.{add_workspace, add_artifact, delete_expired_artifacts}
use nice_agent.Store.Steps.Accounts.{AccountStep-SameRuns}
use nice_agent.Store.Steps.{Step, create_chat_step, add_event_step, account_step, Reach, here, next}

-- The events after number `n` are numbered from `n + 1` on.
abbrev pub Numbered : ℕ → String → List RunEvent → Type 0
Numbered n id [] = Unit
Numbered n id (e ∷ es) = (e.seq ≡ suc n) × (e.run_id ≡ id) × Numbered (suc n) id es

pub record LogOk (s : Store) (id : String) : Type 0 where
  pub numbered : Numbered 0 id (events_of s id)
  pub counted : seq_of s id ≡ length (events_of s id)

Numbered-append :
    (n : ℕ) (id : String) (es : List RunEvent) (e : RunEvent)
    → Numbered n id es
    → e.seq ≡ suc (n + length es)
    → e.run_id ≡ id
    → Numbered n id (es ++ e ∷ [])
Numbered-append n id [] e h q r = (omega arith, r, tt)
Numbered-append n id (x ∷ es) e h q r =
    (h.0, h.1, Numbered-append (suc n) id es e h.2 (omega arith) r)

keep_all :
    (a n : ℕ) (id : String) (es : List RunEvent)
    → a ≤ n
    → Numbered n id es
    → keep (λ e. ltb a e.seq) es ≡ es
keep_all a n id [] le h = refl
keep_all a n id (e ∷ es) le h = ground (arith, keep_all a (suc n) id es (omega arith) h.2)

-- A replay after number `n + k` of events numbered from `n + 1` on leaves out the first `k`.
keep-Numbered :
    (a n k : ℕ) (id : String) (es : List RunEvent)
    → a ≡ n + k
    → Numbered n id es
    → keep (λ e. ltb a e.seq) es ≡ drop k es
keep-Numbered a n zero id es q h = keep_all a n id es (omega arith) h
keep-Numbered a n (suc k) id [] q h = refl
keep-Numbered a n (suc k) id (e ∷ es) q h =
    ground (arith, keep-Numbered a (suc n) k id es (omega arith) h.2)

-- What `add_event` does to the log of its run.
pub log-add_event :
    (now : ℕ) (new_id id : String) (typ : RunEventType) (m : String) (p : Payload) (s : Store)
    (run : Run)
    → lookup id s.runs ≡ some run
    → (events_of (add_event now new_id id typ m p s).1 id
        ≡ events_of s id ++ new_event now new_id id typ m p run s ∷ [])
      × (seq_of (add_event now new_id id typ m p s).1 id ≡ seq_of s id + 1)
unfolding add_event
log-add_event now new_id id typ m p s run e = grind (arith, lookup-put_self)

pub event-add_event :
    (now : ℕ) (new_id id : String) (typ : RunEventType) (m : String) (p : Payload) (s : Store)
    {e : RunEvent}
    → (add_event now new_id id typ m p s).0 ≡ ok e
    → (run : Run) × (lookup id s.runs ≡ some run) × (e ≡ new_event now new_id id typ m p run s)
unfolding add_event
event-add_event now new_id id typ m p s q = ground arith

-- The logs of other runs, and of a run that is not there, stay as they are.
pub log-add_event_other :
    (now : ℕ) (new_id id : String) (typ : RunEventType) (m : String) (p : Payload) (s : Store)
    (j : String)
    → (lookup id s.runs ≡ none) ⊎ ((id == j) ≡ false)
    → (events_of (add_event now new_id id typ m p s).1 j ≡ events_of s j)
      × (seq_of (add_event now new_id id typ m p s).1 j ≡ seq_of s j)
unfolding add_event
log-add_event_other now new_id id typ m p s j e = grind (arith, lookup-put)

add_event-LogOk :
    (now : ℕ) (new_id id : String) (typ : RunEventType) (m : String) (p : Payload) (s : Store)
    (j : String)
    → LogOk s j
    → LogOk (add_event now new_id id typ m p s).1 j
add_event-LogOk now new_id id typ m p s j h = elim (Option-cases (lookup id s.runs)) [
  | inl e ↦ unchanged (log-add_event_other now new_id id typ m p s j (inl e))
  | inr (run, e) ↦ elim (Bool-cases (id == j)) [
    | inr ne ↦ unchanged (log-add_event_other now new_id id typ m p s j (inr ne))
    | inl same ↦
        subst (LogOk (add_event now new_id id typ m p s).1) ((eq_iff id j).0 same)
          (extended run e (subst (LogOk s) (sym ((eq_iff id j).0 same)) h))
  ]
]
  where
    unchanged :
        (events_of (add_event now new_id id typ m p s).1 j ≡ events_of s j)
          × (seq_of (add_event now new_id id typ m p s).1 j ≡ seq_of s j)
        → LogOk (add_event now new_id id typ m p s).1 j
    unchanged (es, q) = record { numbered = rw es h.numbered; counted = rw (es, q) h.counted }

    extended :
        (run : Run)
        → lookup id s.runs ≡ some run
        → LogOk s id
        → LogOk (add_event now new_id id typ m p s).1 id
    extended run e k =
        let (es, q) = log-add_event now new_id id typ m p s run e in
        record {
          numbered = rw es (
              Numbered-append 0 id (events_of s id) (new_event now new_id id typ m p run s)
                k.numbered (unfold new_event in omega (arith, k.counted))
                (unfold new_event in refl));
          counted =
              rw (es, q)
                (omega (
                  arith,
                  k.counted,
                  length-append (events_of s id) (new_event now new_id id typ m p run s ∷ []),
                ));
        }

LogOk-same :
    {s t : Store} (j : String) → t.events ≡ s.events → t.seq ≡ s.seq → LogOk s j → LogOk t j
LogOk-same j p q h = record { numbered = rw p h.numbered; counted = rw (p, q) h.counted }

-- The methods but `AddEvent` leave the logs alone.
pub Step-LogOk : {s t : Store} (j : String) → Step s t → LogOk s j → LogOk t j
unfolding create_chat set_chat_archived add_user_message add_assistant_message claim_run_attempt
    update_run_status save_run_usage subscribe cancel add_workspace add_artifact
    delete_expired_artifacts
Step-LogOk j (add_event_step now new_id id typ m p) h = add_event-LogOk now new_id id typ m p _ j h
Step-LogOk j (create_chat_step now new_id user_id project_id title) h = LogOk-same j refl refl h
Step-LogOk j (account_step a) h =
    let same = AccountStep-SameRuns a in LogOk-same j same.events same.seq h
Step-LogOk j _ h = LogOk-same j (ground arith) (ground arith) h

-- In every store that is reached from one with sound logs, the events of each run are numbered
-- 1, 2, 3, … and its counter is their number.
pub Reach-LogOk : {s t : Store} (j : String) → Reach s t → LogOk s j → LogOk t j
Reach-LogOk j here h = h
Reach-LogOk j (next r step) h = Step-LogOk j step (Reach-LogOk j r h)

-- A replay of a sound log after number `k` returns exactly the events behind the first `k`, in
-- order.
pub list_events-eq-drop :
    (id : String) (k : ℕ) (s : Store) → LogOk s id → list_events id k s ≡ drop k (events_of s id)
unfolding list_events
list_events-eq-drop id k s h = keep-Numbered k 0 k id (events_of s id) (omega arith) h.numbered

-- A client that has seen the first `k` events of a run and asks again after `AddEvent` receives
-- what it would have received before, and then the new event, with the next number.
pub list_events-add_event :
    (now : ℕ) (new_id id : String) (typ : RunEventType) (m : String) (p : Payload) (k : ℕ)
    (s : Store) {e : RunEvent}
    → LogOk s id
    → k ≤ seq_of s id
    → (add_event now new_id id typ m p s).0 ≡ ok e
    → (list_events id k (add_event now new_id id typ m p s).1 ≡ list_events id k s ++ e ∷ [])
      × (e.seq ≡ seq_of s id + 1)
list_events-add_event now new_id id typ m p k s {e} h le q =
    let (run, found, made) = event-add_event now new_id id typ m p s q in
    let (es, _) = log-add_event now new_id id typ m p s run found in
    (
      list_events-eq-drop id k _ (add_event-LogOk now new_id id typ m p s id h)
          ∙ ap (drop k) es
          ∙ drop-append_le k (events_of s id) _ (omega (arith, h.counted))
          ∙ ap₂ ◌++◌ (sym (list_events-eq-drop id k s h)) (ap (λ x. x ∷ []) (sym made)),
      rw made (unfold new_event in refl),
    )
