-- ===== src/Server/Unspent.antt =====
-- createMessage of server.go as a whole, where it does not accept the message.
use nice_agent.Prelude.{
  String, true, false, Option, none, some, ◌≡◌, refl, sym, subst, ◌==◌, Map, Bool-cases, inl, inr,
  lookup, trim_space,
}
use nice_agent.Protocol.Json.{Json}
use nice_agent.Protocol.Policy.{ProjectQuotaPolicy}
use nice_agent.Protocol.Run.{Run}
use nice_agent.ActionPolicy.{write, authorize}
use nice_agent.Quota.Counters.{CounterStore, View, IsCounterStore, run_marker_key}
use nice_agent.Quota.Marker.{MarkerLibrary}
use nice_agent.Quota.Limiter.{RedisLimiter, reserve_run_with_hint}
use nice_agent.Quota.Released.{IsMarkerLibrary}
use nice_agent.Quota.Whole.{reserve_run-IsReleasable}
use nice_agent.Quota.Exact.{reserve_run-Exact}
use nice_agent.Server.{Server, Request, Response}
use nice_agent.Server.Access.{actor_can_read_chat_id}
use nice_agent.Server.Limits.{QuotaOptions, QuotaAnswer}
use nice_agent.Server.Reserving.{
  World, MessageDraw, reserve_through, reserve_unless, reserve_run_quota,
}
use nice_agent.Server.Messages.{reserved_message, create_message}
use nice_agent.Server.Unaccepted.{Costless}
use nice_agent.Server.Uncharged.{reserved_message-Free}

module _ {S : Type 0} {db : CounterStore S} {view : View S} (l : RedisLimiter)
    (law : IsCounterStore l.key_prefix db view) {lib : MarkerLibrary}
    (written : IsMarkerLibrary lib) (server : Server) (q : QuotaOptions)
    (limited : q.limiter ≡ some l) (cut : String → String) (dispatch : Run → String → Option String)
    (d : MessageDraw) (r : Request) (chat_id : String) (w : World S)
    (named : (trim_space d.ids.run == "") ≡ false) (trimmed : trim_space d.ids.run ≡ d.ids.run)
    (fresh : view.text w.counters (run_marker_key l.key_prefix d.ids.run) ≡ none)
    (unused : lookup d.ids.run w.repo.run_usage ≡ none)
    (in_project : (r.actor.project_id == "") ≡ false) where
  abbrev IsFree : Response × World S → Type 0
  IsFree answer = Costless db view lib server q l limited w.counters answer

  -- The rest of the handler, from the answer on the quota.
  abbrev rest : String → QuotaAnswer × S → Response × World S
  rest content (answer, counters) =
      reserved_message db lib server q cut dispatch d r chat_id content answer
        (record w { counters = counters })

  module _ (content : String)
      (readable : actor_can_read_chat_id r.actor chat_id w.repo ≡ true) where
    rest-through :
        (quota : ProjectQuotaPolicy)
        → IsFree (rest content (reserve_through db lib server q (some l) d r.actor quota w))
    unfolding reserve_through
    rest-through quota =
        reserved_message-Free l law written server q limited w.counters dispatch d r chat_id content
          named trimmed fresh in_project cut w.repo
          (reserve_run_with_hint db l d.hour_text d.day_text r.actor quota d.tokens w.counters)
          (reserve_run-Exact l law d.hour_text d.day_text r.actor quota d.tokens w.counters)
          (reserve_run-IsReleasable db l d.hour_text d.day_text r.actor quota d.tokens w.counters)
          readable unused

    rest-unless :
        (refusal : Option (String × Map Json)) (quota : ProjectQuotaPolicy)
        → IsFree (rest content (reserve_unless db lib server q refusal d r.actor quota w))
    unfolding reserve_unless reserved_message
    rest-unless none quota =
        subst (λ x. IsFree (rest content (reserve_through db lib server q x d r.actor quota w)))
          (sym limited) (rest-through quota)
    rest-unless (some (message, metadata)) quota = inr (λ j. refl)

    rest-quota : IsFree (rest content (reserve_run_quota db lib server q d r.actor w))
    unfolding reserve_run_quota
    rest-quota = rest-unless _ _

  -- Of a request in a named project, with a run identifier that has no space around it, no marker and
  -- no usage yet, while the counter store does what `IsCounterStore` says: either the message is accepted, with the status
  -- 202, or no counter of the limiter has changed, whatever the dispatcher and the repository answer.
  pub create_message-Costless :
      (body : Option String)
      → Costless db view lib server q l limited w.counters
          (create_message db lib server q cut dispatch d r body chat_id w)
  unfolding create_message
  create_message-Costless none = inr (λ j. refl)
  create_message-Costless (some body) = elim (Bool-cases (trim_space body == "")) [
    | inl empty ↦ rw empty (inr (λ j. refl))
    | inr given ↦ rw given (elim (Bool-cases (actor_can_read_chat_id r.actor chat_id w.repo)) [
      | inr hidden ↦ rw hidden (inr (λ j. refl))
      | inl readable ↦
          rw readable
            (elim (Bool-cases
              (authorize server.lower server.policy r.actor "message.create" write).allowed) [
                | inr forbidden ↦ rw forbidden (inr (λ j. refl))
                | inl allowed ↦ rw allowed (rest-quota (trim_space body) readable)
              ])
    ])
  ]
