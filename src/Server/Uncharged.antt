-- ===== src/Server/Uncharged.antt =====
-- The handler of a new message in server.go, from the reservation to the dispatch, where it does not
-- accept the message.
use nice_agent.Prelude.{
  ℕ, Bool, String, true, false, Option, none, some, ◌≡◌, refl, sym, subst, ◌==◌, arith, Bool-cases,
  Option-cases, inl, inr, lookup, lookup-put_self, trim_space, ◌∙◌, eq_iff,
}
use nice_agent.Protocol.Audit.{ActorContext}
use nice_agent.Protocol.Chat.{ChatSession, Message}
use nice_agent.Protocol.Run.{Run, queued, failed, zero_run_usage, normalize_run_usage}
use nice_agent.Store.{Store, Result, ok, err}
use nice_agent.Store.Chats.{NewIds, new_run, get_chat, write_user_message, add_user_message}
use nice_agent.Store.Runs.{with_status}
use nice_agent.Quota.Counters.{CounterStore, View, IsCounterStore, active_key, run_marker_key}
use nice_agent.Quota.Marker.{MarkerLibrary}
use nice_agent.Quota.Limiter
use nice_agent.Quota.Limiter.{RedisLimiter, Reservation, Answer, granted, denied, commit}
use nice_agent.Quota.Reserved.{Holds, Exact, rollback-Holds}
use nice_agent.Quota.Released.{IsMarkerLibrary, HeldAt}
use nice_agent.Quota.Whole.{IsReleasable, OnGranted}
use nice_agent.Quota.Cycle.{release-commit}
use nice_agent.Quota.Refund.{rollback-release}
use nice_agent.Server.{Server, Request, Response}
use nice_agent.Server.Access.{actor_can_read_chat, actor_can_read_chat_id}
use nice_agent.Server.Limits.{QuotaOptions, limiter_answer}
use nice_agent.Server.Reserving.{World, MessageDraw, roll_back}
use nice_agent.Server.Messages.{commit_held, commit_run, added_message, reserved_message}
use nice_agent.Server.Costless.{IsReady}
use nice_agent.Server.Unaccepted.{Costless, IsRefunded, dispatch_run-Costless}

-- A new run that is in the repository.
abbrev pub IsAdded : String → String → String → Result (Message × Run) × Store → Type 0
IsAdded run_id user_id project_id (err e, t) = Unit {0}
IsAdded run_id user_id project_id (ok (message, run), t) =
    IsReady run project_id t × (run.status ≡ queued) × (run.id ≡ run_id) × (run.user_id ≡ user_id)

chat_of_actor :
    (actor : ActorContext) (chat_id : String) (s : Store)
    → actor_can_read_chat_id actor chat_id s ≡ true
    → (chat : _) → lookup chat_id s.chats ≡ some chat
    → chat.project_id ≡ actor.project_id
unfolding actor_can_read_chat_id actor_can_read_chat get_chat
chat_of_actor actor chat_id s readable chat found =
    (eq_iff chat.project_id actor.project_id).0 (ground arith)

module _ (now : ℕ) (cut : String → String) (ids : NewIds) (actor : ActorContext)
    (chat_id content : String) (s : Store) (unused : lookup ids.run s.run_usage ≡ none) where
  abbrev Added : Result (Message × Run) × Store → Type 0
  Added answer = IsAdded ids.run actor.user_id actor.project_id answer

  write_user_message-IsAdded :
      (chat : ChatSession)
      → chat.project_id ≡ actor.project_id
      → Added (write_user_message now cut ids chat_id actor.user_id content chat s)
  unfolding write_user_message new_run
  write_user_message-IsAdded chat project = (
    record {
      chat = _;
      found = lookup-put_self ids.run _ s.runs;
      of_chat = lookup-put_self chat_id _ s.chats;
      of_project = project;
      unused = unused;
    },
    refl,
    refl,
    refl,
  )

  pub add_user_message-IsAdded :
      actor_can_read_chat_id actor chat_id s ≡ true
      → Added (add_user_message now cut ids chat_id actor.user_id content s)
  unfolding add_user_message
  add_user_message-IsAdded readable = elim (Option-cases (lookup chat_id s.chats)) [
    | inl missing ↦ rw (missing, add_user_message) tt
    | inr (chat, found) ↦
        (let project = chat_of_actor actor chat_id s readable chat found in
          rw (found, add_user_message)
            (elim (Bool-cases (chat.user_id == actor.user_id)) [
              | inl same ↦ rw same (write_user_message-IsAdded chat project)
              | inr other ↦ rw other tt
            ]))
  ]

module _ {S : Type 0} {db : CounterStore S} {view : View S} (l : RedisLimiter)
    (law : IsCounterStore l.key_prefix db view) {lib : MarkerLibrary}
    (written : IsMarkerLibrary lib) (server : Server) (q : QuotaOptions)
    (limited : q.limiter ≡ some l) (s0 : S) (dispatch : Run → String → Option String)
    (d : MessageDraw) (r : Request) (chat_id content : String)
    (named : (trim_space d.ids.run == "") ≡ false) (trimmed : trim_space d.ids.run ≡ d.ids.run)
    (fresh : view.text s0 (run_marker_key l.key_prefix d.ids.run) ≡ none)
    (in_project : (r.actor.project_id == "") ≡ false) where
  abbrev Free : Response × World S → Type 0
  Free answer = Costless db view lib server q l limited s0 answer

  abbrev IsHeld : Reservation → S → Type 0
  IsHeld held s =
      Holds law s0 held s
      × IsReleasable (active_key l.key_prefix r.actor.project_id r.actor.user_id) held

  module _ (held : Reservation) (message : Message) (run : Run) (w : World S)
      (ready : IsReady run r.actor.project_id w.repo) (waiting : run.status ≡ queued)
      (same_id : run.id ≡ d.ids.run) (same_user : run.user_id ≡ r.actor.user_id)
      (h : IsHeld held w.counters) where
    run_named : (trim_space run.id == "") ≡ false
    run_named = subst (λ i. (trim_space i == "") ≡ false) (sym same_id) named

    run_trimmed : trim_space run.id ≡ run.id
    run_trimmed = subst (λ i. trim_space i ≡ i) (sym same_id) trimmed

    no_marker : view.text w.counters (run_marker_key l.key_prefix run.id) ≡ none
    no_marker =
        h.0.2 (run_marker_key l.key_prefix run.id)
        ∙ subst (λ i. view.text s0 (run_marker_key l.key_prefix i) ≡ none) (sym same_id) fresh

    held_at : HeldAt (active_key l.key_prefix r.actor.project_id run.user_id) held
    held_at =
        subst (λ u. HeldAt (active_key l.key_prefix r.actor.project_id u) held) (sym same_user)
          h.1.0

    abbrev committed : Bool × Reservation × S
    committed = commit db lib l run.id held w.counters

    commits : committed.0 ≡ true
    commits =
        (release-commit l law written run r.actor.project_id zero_run_usage run_named s0 w.counters
          held h.0 run_trimmed no_marker held_at h.1.1).0

    refunded :
        IsRefunded db view lib server q l limited s0 run r.actor.project_id d.failed.now committed.1
          committed.2
    unfolding with_status normalize_run_usage
    refunded e =
        rollback-release l law written (with_status d.failed.now failed e run) r.actor.project_id
          zero_run_usage run_named s0 w.counters held h.0 run_trimmed no_marker refl h.1.2 held_at
          h.1.1

    pub commit_run-Free :
        Free
          (commit_run db lib server q dispatch d r chat_id content (some (l, held)) message run w)
    unfolding commit_run commit_held
    commit_run-Free = rw commits (
        dispatch_run-Costless db view lib server q l limited s0 d r committed.1 message run
          r.actor.project_id waiting in_project dispatch chat_id content
          (record { repo = w.repo; counters = committed.2 }) ready refunded)

  added_message-Free :
      (held : Reservation) (counters : S) (answer : Result (Message × Run) × Store)
      → IsAdded d.ids.run r.actor.user_id r.actor.project_id answer
      → IsHeld held counters
      → Free (
          added_message db lib server q dispatch d r chat_id content
            (some (l, held))
            counters
            answer)
  unfolding added_message roll_back
  added_message-Free held counters (err e, t) added h =
      inr (rollback-Holds law s0 counters held h.0).0
  added_message-Free held counters (ok (message, run), t) (ready, waiting, same_id, same_user) h =
      commit_run-Free held message run (record { repo = t; counters = counters }) ready waiting
        same_id same_user h

  pub reserved_message-Free :
      (cut : String → String) (repo : Store) (answer : Answer × S)
      → Exact law s0 answer
      → OnGranted (IsReleasable (active_key l.key_prefix r.actor.project_id r.actor.user_id)) answer
      → actor_can_read_chat_id r.actor chat_id repo ≡ true
      → lookup d.ids.run repo.run_usage ≡ none
      → Free (
          reserved_message db lib server q cut dispatch d r chat_id content
            (limiter_answer l answer.0)
            (record { repo = repo; counters = answer.1 }))
  unfolding reserved_message
  reserved_message-Free cut repo (granted held, t) exact shape readable unused =
      added_message-Free held t _
        (add_user_message-IsAdded d.draw.now cut d.ids r.actor chat_id content repo unused readable)
        (exact, shape)
  reserved_message-Free cut repo (denied denial, t) exact shape readable unused = inr exact.0
  reserved_message-Free cut repo (Limiter.failed, t) exact shape readable unused = absurd exact
