-- ===== src/Server/Admitted.antt =====
-- createMessage of server.go as a whole, where it accepts the message.
use nice_agent.Prelude.{
  ℕ, ◌+ℤ◌, ap, String, true, false, Option, none, some, ◌≡◌, refl, sym, subst, ◌==◌, ◌&&◌, not, ◌∙◌,
  is_zero, Bool-cases, Option-cases, inl, inr, lookup, lookup-put_self, trim_space, arith,
}
use nice_agent.Protocol.Audit.{ActorContext}
use nice_agent.Protocol.Event.{RunEventType, Payload}
use nice_agent.Protocol.Chat.{ChatSession, Message}
use nice_agent.Protocol.Policy.{ProjectQuotaPolicy}
use nice_agent.Protocol.Run.{Run, zero_run_usage}
use nice_agent.ActionPolicy.{write, authorize}
use nice_agent.Store.{Store, Result, ok}
use nice_agent.Store.Chats.{NewIds, new_run, get_chat, write_user_message, add_user_message}
use nice_agent.Store.Events.{add_event}
use nice_agent.Store.Invocations.{add_audit_event}
use nice_agent.Quota.Counters.{CounterStore, View, IsCounterStore, SameCount, run_marker_key}
use nice_agent.Quota.Marker.{MarkerLibrary}
use nice_agent.Quota.Limiter.{RedisLimiter, Reservation, granted, reserve_run_with_hint, commit}
use nice_agent.Quota.Rollback.{amount_of}
use nice_agent.Quota.Released.{IsMarkerLibrary}
use nice_agent.Quota.Reserved.{Holds, Exact}
use nice_agent.Quota.Exact.{reserve_run-Exact}
use nice_agent.Quota.Cycle.{commit-marked, commit-unmarked}
use nice_agent.Server.{Server, Request, Response, write_audit_event}
use nice_agent.Server.Access.{actor_can_read_chat, actor_can_read_chat_id}
use nice_agent.Server.Limits.{
  QuotaOptions, quota_reserved, effective_quota_policy, or_refusal, check_token_quota,
  check_daily_usage_quota,
}
use nice_agent.Server.Reserving.{
  World, MessageDraw, reserve_through, reserve_unless, reserve_run_quota,
}
use nice_agent.Server.Messages.{
  dispatched, dispatch_run, commit_held, commit_run, added_message, reserved_message,
  create_message,
}

runs-add_event :
    (now : ℕ) (id run_id message : String) (typ : RunEventType) (payload : Payload) (s : Store)
    → (add_event now id run_id typ message payload s).1.runs ≡ s.runs
unfolding add_event
runs-add_event now id run_id message typ payload s = ground arith

-- The message and its run have been written.
abbrev Written : ℕ → NewIds → String → String → Result (Message × Run) × Store → Type 0
Written now ids chat_id user_id answer =
    (message : Message) × (t : Store) × (answer
      ≡ (ok (message, new_run now ids chat_id user_id), t))
    × (lookup ids.run t.runs ≡ some (new_run now ids chat_id user_id))

write_user_message-Written :
    (now : ℕ) (cut : String → String) (ids : NewIds) (chat_id user_id content : String)
    (chat : ChatSession) (s : Store)
    → Written now ids chat_id user_id
        (write_user_message now cut ids chat_id user_id content chat s)
unfolding write_user_message new_run
write_user_message-Written now cut ids chat_id user_id content chat s =
    (_, _, refl, lookup-put_self ids.run _ s.runs)

-- A user who may read a chat may write to it.
add_user_message-Written :
    (now : ℕ) (cut : String → String) (ids : NewIds) (actor : ActorContext)
    (chat_id content : String) (s : Store)
    → actor_can_read_chat_id actor chat_id s ≡ true
    → Written now ids chat_id actor.user_id
        (add_user_message now cut ids chat_id actor.user_id content s)
unfolding add_user_message actor_can_read_chat_id actor_can_read_chat get_chat
add_user_message-Written now cut ids actor chat_id content s readable =
    elim (Option-cases (lookup chat_id s.chats)) [
      | inl missing ↦ absurd (ground arith)
      | inr (chat, found) ↦
          (let same : (chat.user_id == actor.user_id) ≡ true = ground arith in
            rw (found, same, add_user_message)
              (write_user_message-Written now cut ids chat_id actor.user_id content chat s))
    ]

module _ {S : Type 0} {db : CounterStore S} {view : View S} (l : RedisLimiter)
    (law : IsCounterStore l.key_prefix db view) {lib : MarkerLibrary}
    (written : IsMarkerLibrary lib) (server : Server) (q : QuotaOptions)
    (limited : q.limiter ≡ some l) (cut : String → String) (dispatch : Run → String → Option String)
    (sent : (run : Run) (content : String) → dispatch run content ≡ none) (d : MessageDraw)
    (r : Request) (chat_id : String) (w : World S) (named : (trim_space d.ids.run == "") ≡ false)
    (trimmed : trim_space d.ids.run ≡ d.ids.run)
    (fresh : view.text w.counters (run_marker_key l.key_prefix d.ids.run) ≡ none) where
  abbrev the_run : Run
  the_run = new_run d.draw.now d.ids chat_id r.actor.user_id

  -- The message is accepted: its run waits in the repository, and each counter has grown by what the
  -- reservation holds.
  abbrev pub Charged : Reservation → Response × World S → Type 0
  Charged held answer =
      (answer.0.status ≡ 202)
      × (lookup d.ids.run answer.1.repo.runs ≡ some the_run)
      × ((j : String)
          → view.count answer.1.counters j ≡ view.count w.counters j +ℤ amount_of held j)

  module _ (held : Reservation) (t : S) (holds : Holds law w.counters held t) where
    commits :
        ((commit db lib l d.ids.run held t).0 ≡ true)
        × SameCount view t (commit db lib l d.ids.run held t).2
    commits =
        let no_marker = holds.2 (run_marker_key l.key_prefix d.ids.run) ∙ fresh in
        elim (Bool-cases (not held.reserved_active && is_zero held.reserved_tokens)) [
          | inl unmarked ↦
              rw
                (commit-unmarked l law written (record the_run { id = d.ids.run })
                  r.actor.project_id zero_run_usage named w.counters t held holds trimmed no_marker
                  unmarked)
                (refl, λ j. refl)
          | inr marked ↦
              (let (raw, read, fine, counts, texts, kept) =
                  commit-marked l law written (record the_run { id = d.ids.run }) r.actor.project_id
                    zero_run_usage named w.counters t held holds trimmed no_marker marked in
                (fine, counts))
        ]

    commit_run-Charged :
        (content : String) (message : Message) (repo : Store)
        → lookup d.ids.run repo.runs ≡ some the_run
        → Charged held (
            commit_run db lib server q dispatch d r chat_id content
              (some (l, held))
              message
              the_run
              (record { repo = repo; counters = t }))
    unfolding commit_run commit_held dispatch_run dispatched write_audit_event add_audit_event
        new_run
    commit_run-Charged content message repo found =
        rw (commits.0, sent the_run content)
          (
            refl,
            ap (lookup d.ids.run) (runs-add_event _ _ _ _ _ _ repo) ∙ found,
            λ j. commits.1 j ∙ holds.1 j,
          )

  -- A reservation that the limiter grants.
  reserve_through-granted :
      (quota : ProjectQuotaPolicy) {held : Reservation} {t : S}
      → reserve_run_with_hint db l d.hour_text d.day_text r.actor quota d.tokens w.counters
        ≡ (granted held, t)
      → reserve_through db lib server q q.limiter d r.actor quota w
        ≡ (quota_reserved (some (l, held)), t)
  unfolding reserve_through
  reserve_through-granted quota {held} {t} reserved =
      subst
        (λ x.
          reserve_through db lib server q x d r.actor quota w
          ≡ (quota_reserved (some (l, held)), t))
        (sym limited) (rw reserved refl)

  -- An actor who may read the chat and may write, within the daily quotas, whose reservation the
  -- limiter grants, in a new run with an identifier that has no space around it and no marker yet,
  -- while the counter store does what `IsCounterStore` says: a message that is not empty is accepted, if the dispatcher takes
  -- it. Its run then waits in the repository, and each counter has grown by exactly what the
  -- reservation holds.
  pub create_message-Charged :
      (body : String) {held : Reservation} {t : S}
      → (trim_space body == "") ≡ false
      → actor_can_read_chat_id r.actor chat_id w.repo ≡ true
      → (authorize server.lower server.policy r.actor "message.create" write).allowed ≡ true
      → or_refusal
          (check_token_quota d.since r.actor
            (effective_quota_policy q r.actor.project_id w.repo)
            w.repo)
          (check_daily_usage_quota d.since r.actor
            (effective_quota_policy q r.actor.project_id w.repo)
            w.repo)
        ≡ none
      → reserve_run_with_hint db l d.hour_text d.day_text r.actor
          (effective_quota_policy q r.actor.project_id w.repo)
          d.tokens
          w.counters
        ≡ (granted held, t)
      → Charged held (create_message db lib server q cut dispatch d r (some body) chat_id w)
  unfolding create_message reserve_run_quota reserve_unless reserved_message added_message
  create_message-Charged body {held} {t} given readable allowed within reserved =
      let quota = effective_quota_policy q r.actor.project_id w.repo in
      let (message, repo, added, found) =
        add_user_message-Written d.draw.now cut d.ids r.actor chat_id (trim_space body) w.repo
          readable in
      let holds =
        subst (Exact law w.counters) reserved
          (reserve_run-Exact l law d.hour_text d.day_text r.actor quota d.tokens w.counters) in
      let answered : reserve_run_quota db lib server q d r.actor w
          ≡ (quota_reserved (some (l, held)), t) =
        rw (reserve_run_quota, within, reserve_unless) (reserve_through-granted quota reserved) in
      rw (given, readable, allowed, answered)
        (rw added (commit_run-Charged held t holds (trim_space body) message repo found))
