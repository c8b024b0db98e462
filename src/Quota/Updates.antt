-- ===== src/Quota/Updates.antt =====
-- What an update through the wrapper does to the store and to the releases.
use nice_agent.Prelude.{
  ℕ, String, ◌≡◌, refl, true, false, Bool, Bool-cases, inl, inr, ◌⊎◌, none, some, List, [], ◌∷◌,
  ◌++◌, lookup, lookup-put_self, ForAll, ◌==◌, not, arith, Option, Option-cases, ap, ◌∙◌, ◌&&◌,
}
use nice_agent.Protocol.Run.{Run, RunStatus, eq_status, is_terminal_run_status}
use nice_agent.Protocol.Chat.{ChatSession}
use nice_agent.Store.{Store, ok}
use nice_agent.Store.Chats.{get_chat}
use nice_agent.Store.Runs.{get_run, get_run_usage, with_status, update_run_status}
use nice_agent.Store.Steps.{Step, update_run_status_step}
use nice_agent.Store.Steps.Terminal.{status_of}
use nice_agent.Store.Steps.Consistent.{RunOk}
use nice_agent.Quota.{
  usage_or_zero, project_id_for_run, Release, Releasing, releasing_update, with_release,
}

abbrev pub is_finished : Option RunStatus → Bool
is_finished none = false
is_finished (some status) = is_terminal_run_status status

with_release-cases :
    (before : RunStatus) (run : Run) (s : Store) (rs : List Release)
    → (with_release before run s rs ≡ rs)
      ⊎ ((r : Release) × (with_release before run s rs ≡ rs ++ r ∷ [])
          × (r.run ≡ run)
          × (is_terminal_run_status before ≡ false)
          × (is_terminal_run_status run.status ≡ true))
unfolding with_release
with_release-cases before run s rs = grind arith

updated :
    (now : ℕ) (id : String) (status : RunStatus) (msg : String) (s : Store) (run : Run)
    → lookup id s.runs ≡ some run
    → (run' : Run) × ((update_run_status now id status msg s).0 ≡ ok run')
      × (lookup id (update_run_status now id status msg s).1.runs ≡ some run')
      × (run'.id ≡ run.id)
unfolding update_run_status with_status
updated now id status msg s run e =
    elim (Bool-cases (is_terminal_run_status run.status && not (eq_status run.status status))) [
      | inl stays ↦ (run, ground arith, ground arith, refl)
      | inr moves ↦
          (with_status now status msg run, ground arith, grind (arith, lookup-put_self), refl)
    ]

pub releasing_update-found :
    (now : ℕ) (id : String) (status : RunStatus) (msg : String) (w : Releasing) (run run' : Run)
    → lookup id w.store.runs ≡ some run
    → (update_run_status now id status msg w.store).0 ≡ ok run'
    → (releasing_update now id status msg w).1 ≡ record {
      store = (update_run_status now id status msg w.store).1;
      releases =
          with_release run.status run' (update_run_status now id status msg w.store).1 w.releases;
    }
unfolding releasing_update get_run
releasing_update-found now id status msg w run run' e q = ground arith

releasing_update-missing :
    (now : ℕ) (id : String) (status : RunStatus) (msg : String) (w : Releasing)
    → lookup id w.store.runs ≡ none
    → (releasing_update now id status msg w).1 ≡ w
unfolding releasing_update get_run update_run_status
releasing_update-missing now id status msg w e = ground arith

-- A wrapped update takes the store as the inner one does, and adds one release at most: of the run,
-- when the update has finished it.
pub data Update (w : Releasing) (id : String) (v : Releasing) : Type 0 where
  quiet : v.releases ≡ w.releases → Update w id v
  released :
      (r : Release)
      → v.releases ≡ w.releases ++ r ∷ []
      → r.run.id ≡ id
      → is_finished (status_of w.store id) ≡ false
      → is_finished (status_of v.store id) ≡ true
      → Update w id v

finished-at :
    (id : String) (s : Store) (run : Run)
    → lookup id s.runs ≡ some run
    → is_finished (status_of s id) ≡ is_terminal_run_status run.status
finished-at id s run e = ground arith

Update-found :
    (w : Releasing) (id : String) (run run' : Run) (s : Store)
    → run'.id ≡ id
    → lookup id w.store.runs ≡ some run
    → lookup id s.runs ≡ some run'
    → Update w id (record { store = s; releases = with_release run.status run' s w.releases })
Update-found w id run run' s named e e' = elim (with_release-cases run.status run' s w.releases) [
  | inl q ↦ quiet q
  | inr (r, q, same, before, after) ↦
      released r q (ap (λ (x : Run). x.id) same ∙ named) (finished-at id w.store run e ∙ before)
        (finished-at id s run' e' ∙ after)
]

pub updated-releases :
    (now : ℕ) (id : String) (status : RunStatus) (msg : String) (w : Releasing)
    → ForAll RunOk w.store.runs
    → Update w id (releasing_update now id status msg w).1
updated-releases now id status msg w h = elim (Option-cases (lookup id w.store.runs)) [
  | inl e ↦
      quiet (ap (λ (x : Releasing). x.releases) (releasing_update-missing now id status msg w e))
  | inr (run, e) ↦
      let (run', q, e', named) = updated now id status msg w.store run e in
      rw (releasing_update-found now id status msg w run run' e q) (
        Update-found w id run run' (update_run_status now id status msg w.store).1
          (named ∙ (h id run e).named) e e')
]

releasing_update-store :
    (now : ℕ) (id : String) (status : RunStatus) (msg : String) (w : Releasing)
    → (releasing_update now id status msg w).1.store
      ≡ (update_run_status now id status msg w.store).1
unfolding releasing_update
releasing_update-store now id status msg w = ground arith

-- A wrapped update is a step of the store.
pub update-Step :
    (now : ℕ) (id : String) (status : RunStatus) (msg : String) (w : Releasing)
    → Step w.store (releasing_update now id status msg w).1.store
update-Step now id status msg w =
    rw (releasing_update-store now id status msg w) (update_run_status_step now id status msg)

abbrev release_of : Run → Store → Release
release_of run s = record {
  run = run;
  project_id = project_id_for_run run s;
  usage = usage_or_zero (get_run_usage run.id s);
}

with_release_finishes :
    (before : RunStatus) (run : Run) (s : Store) (rs : List Release)
    → is_terminal_run_status before ≡ false
    → is_terminal_run_status run.status ≡ true
    → (project_id_for_run run s == "") ≡ false
    → with_release before run s rs ≡ rs ++ release_of run s ∷ []
unfolding with_release
with_release_finishes before run s rs b a p = ground arith

update_finishes :
    (now : ℕ) (id : String) (status : RunStatus) (msg : String) (s : Store) (run : Run)
    (chat : ChatSession)
    → lookup id s.runs ≡ some run
    → is_terminal_run_status run.status ≡ false
    → lookup run.chat_id s.chats ≡ some chat
    → ((update_run_status now id status msg s).0 ≡ ok (with_status now status msg run))
      × (project_id_for_run
            (with_status now status msg run)
            (update_run_status now id status msg s).1
          ≡ chat.project_id)
unfolding update_run_status with_status project_id_for_run get_chat
update_finishes now id status msg s run chat e b there = (ground arith, grind arith)

-- The reservation is given back: an update that finishes a run that was not finished, of a chat in a
-- project, adds one release, of that run with its new status and of the chat's project.
releasing_update_releases :
    (now : ℕ) (id : String) (status : RunStatus) (msg : String) (w : Releasing) (run : Run)
    (chat : ChatSession)
    → lookup id w.store.runs ≡ some run
    → is_terminal_run_status run.status ≡ false
    → is_terminal_run_status status ≡ true
    → lookup run.chat_id w.store.chats ≡ some chat
    → (chat.project_id == "") ≡ false
    → (r : Release) × ((releasing_update now id status msg w).1.releases ≡ w.releases ++ r ∷ [])
      × (r.run ≡ with_status now status msg run)
      × (r.project_id ≡ chat.project_id)
unfolding with_status
releasing_update_releases now id status msg w run chat e before after there named =
    let run' = with_status now status msg run in
    let t = (update_run_status now id status msg w.store).1 in
    let (q, project) = update_finishes now id status msg w.store run chat e before there in
    (
      release_of run' t,
      ap (λ (x : Releasing). x.releases) (releasing_update-found now id status msg w run run' e q)
          ∙ with_release_finishes run.status run' t w.releases before after (rw project named),
      refl,
      project,
    )
