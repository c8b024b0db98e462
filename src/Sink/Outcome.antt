-- ===== src/Sink/Outcome.antt =====
-- A completion report makes a run succeed, whatever artifacts come with it.
use nice_agent.Prelude.{
  ◌+◌, String, ◌≡◌, refl, true, false, ◌∙◌, Option, none, some, List, [], ◌∷◌, lookup,
  lookup-put_self, value_or, arith, eq_refl, Bool, Bool-cases, inl, inr,
}
use mathlib.Core.Bool.{false≢true}
use nice_agent.Protocol.Run.{Run, zero_run_usage, RunStatus, succeeded, is_terminal_run_status}
use nice_agent.Protocol.Chat.{Artifact, ChatSession}
use nice_agent.Store.{Result, ok, err}
use nice_agent.Store.Chats.{add_assistant_message}
use nice_agent.Store.Runs.{get_run, with_status, update_run_status}
use nice_agent.Store.Events.{add_event}
use nice_agent.Store.Artifacts.{add_artifact}
use nice_agent.Store.Steps.Terminal.{status_of}
use nice_agent.Sink.Calls.{Outside, World, Chain, continue}
use nice_agent.Sink.{
  register_artifacts, register_all, existing_artifact, saved_or_known, save_artifact, register_some,
  finish, complete,
}

-- Reading the run costs a call and changes nothing else.
abbrev pub after_read : World → World
after_read w = record w { calls = w.calls + 1 }

-- The run as `GetRun` returns it.
abbrev seen : String → Run → World → Run
seen run_id run w = record run { usage = value_or zero_run_usage (lookup run_id w.store.run_usage) }

abbrev is_ok {ℓ} : {A : Type ℓ} → Result A → Bool
is_ok (ok _) = true
is_ok (err _) = false

-- A call that returns a value and leaves the runs and the chats as they are.
record Leaves {A : Type 0} (w : World) (r : Result A × World) : Type 0 where
  returned : is_ok r.0 ≡ true
  runs : r.1.store.runs ≡ w.store.runs
  chats : r.1.store.chats ≡ w.store.chats

module _ {A B : Type 0} (f : A → Chain B) (w : World)
    (rest : (a : A) (v : World) → v.store.runs ≡ w.store.runs → Leaves v (f a v)) where
  Leaves-continue : (r : Result A) (v : World) → Leaves w (r, v) → Leaves w (continue r f v)
  Leaves-continue (ok a) v l =
      let k = rest a v l.runs in
      record { returned = k.returned; runs = k.runs ∙ l.runs; chats = k.chats ∙ l.chats }
  Leaves-continue (err e) v l = absurd (false≢true l.returned)

module _ (o : Outside) (run_id : String) (run stored : Run) where
  existing_artifact-Leaves : (a : Artifact) (w : World) → Leaves w (existing_artifact o run a w)
  unfolding existing_artifact
  existing_artifact-Leaves a w = record {
    returned = ground arith;
    runs = ground arith;
    chats = ground arith;
  }

  saved_or_known-Leaves :
      (a : Artifact) (e : Option Artifact) (w : World)
      → lookup run_id w.store.runs ≡ some stored
      → Leaves w (saved_or_known o run_id run a e w)
  unfolding saved_or_known save_artifact add_artifact add_event
  saved_or_known-Leaves a (some b) w found = record { returned = refl; runs = refl; chats = refl }
  saved_or_known-Leaves a none w found = record {
    returned = ground arith;
    runs = ground arith;
    chats = ground arith;
  }

  register_all-Leaves :
      (artifacts : List Artifact) (w : World)
      → lookup run_id w.store.runs ≡ some stored
      → Leaves w (register_all o run_id run artifacts w)
  unfolding register_all
  register_all-Leaves [] w found = record { returned = refl; runs = refl; chats = refl }
  register_all-Leaves (a ∷ artifacts) w found =
      Leaves-continue _ w
        (λ e v q.
          Leaves-continue _ v
            (λ saved u p.
              Leaves-continue _ u
                (λ rest x _. record { returned = refl; runs = refl; chats = refl }) _ _
                (register_all-Leaves artifacts u (rw (p, q) found)))
            _ _ (saved_or_known-Leaves a e v (rw q found)))
        _ _ (existing_artifact-Leaves a w)

module _ (o : Outside) (run_id : String) (run : Run) where
  register_artifacts-Leaves :
      (artifacts : List Artifact) (w : World)
      → lookup run_id w.store.runs ≡ some run
      → Leaves w (register_artifacts o run_id artifacts w)
  unfolding register_artifacts get_run
  register_artifacts-Leaves artifacts w found =
      elim (Bool-cases (is_terminal_run_status run.status)) [
        | inl done ↦
            rw (found, continue) (rw done (record { returned = refl; runs = refl; chats = refl }))
        | inr more ↦
            rw (found, continue)
              (rw more (
                let l =
                  register_all-Leaves o run_id (seen run_id run w) run artifacts (after_read w)
                    found in
                record { returned = l.returned; runs = l.runs; chats = l.chats }))
      ]

  register_some-Leaves :
      (artifacts : List Artifact) (w : World)
      → lookup run_id w.store.runs ≡ some run
      → Leaves w (register_some o run_id artifacts w)
  unfolding register_some
  register_some-Leaves [] w found = record { returned = refl; runs = refl; chats = refl }
  register_some-Leaves (a ∷ artifacts) w found =
      Leaves-continue _ w (λ _ v _. record { returned = refl; runs = refl; chats = refl }) _ _
        (register_artifacts-Leaves (a ∷ artifacts) w found)

  -- The end of `Complete` writes the answer, the status and the event.
  finish-status_of :
      (content : String) (seen : Run) (w : World) (chat : ChatSession)
      → lookup run_id w.store.runs ≡ some run
      → is_terminal_run_status run.status ≡ false
      → lookup seen.chat_id w.store.chats ≡ some chat
      → ((finish o run_id content seen w).0 ≡ ok tt)
        × (status_of (finish o run_id content seen w).1.store run_id ≡ some succeeded)
  unfolding finish add_assistant_message with_status update_run_status add_event
  finish-status_of content seen w chat found open_run there =
      grind (arith, lookup-put_self, eq_refl)

-- A report has ended well, and the run has the status.
abbrev Reported : String → RunStatus → Result (Unit {0}) × World → Type 0
Reported run_id status r = (r.0 ≡ ok tt) × (status_of r.1.store run_id ≡ some status)

Reported-continue :
    (run_id : String) (status : RunStatus) (f : Unit {0} → Chain (Unit {0})) (w : World)
    (r : Result (Unit {0})) (v : World)
    → ((u : Unit {0}) (x : World)
        → x.store.runs ≡ w.store.runs
        → x.store.chats ≡ w.store.chats
        → Reported run_id status (f u x))
    → Leaves w (r, v)
    → Reported run_id status (continue r f v)
Reported-continue run_id status f w (ok a) v rest l = rest a v l.runs l.chats
Reported-continue run_id status f w (err e) v rest l = absurd (false≢true l.returned)

module _ (o : Outside) (run_id content : String) (artifacts : List Artifact) (w : World) (run : Run)
    (chat : ChatSession) (found : lookup run_id w.store.runs ≡ some run)
    (open_run : is_terminal_run_status run.status ≡ false)
    (there : lookup run.chat_id w.store.chats ≡ some chat) where
  -- A completion report on a run that is not finished, of a chat that is there, returns no error,
  -- whatever its artifacts, and the run has succeeded.
  pub complete_succeeds :
      ((complete o run_id content artifacts w).0 ≡ ok tt)
      × (status_of (complete o run_id content artifacts w).1.store run_id ≡ some succeeded)
  unfolding complete get_run
  complete_succeeds =
      rw (found, continue)
        (rw open_run (
          Reported-continue run_id succeeded (λ _. finish o run_id content (seen run_id run w))
            (after_read w) _ _
            (λ u x p q.
              finish-status_of o run_id run content (seen run_id run w) x chat (rw p found) open_run
                (rw q there))
            (register_some-Leaves o run_id run artifacts (after_read w) found)))
