-- ===== src/Fanout/CatchUp.antt =====
-- What a nudge makes the relay of eventbus.go forward: the rest of the log.
use nice_agent.Prelude.{
  ℕ, zero, suc, ◌+◌, ◌<◌, String, Bool, true, false, ◌≡◌, refl, sym, ap, ◌∙◌, subst, List, [], ◌∷◌,
  ◌++◌, length, drop, append_nil, append_snoc, arith, leb,
}
use nice_agent.Protocol.Event.{RunEvent}
use nice_agent.Store.{Store}
use nice_agent.Store.Events.{events_of}
use nice_agent.Store.Steps.Numbered.{Numbered, LogOk, list_events-eq-drop}
use nice_agent.Fanout.{
  EventNudge, Relay, max_from, max_event_seq, forwarded, catch_up_one, catch_up, on_nudge,
  new_relay,
}

-- A client that takes every event.
abbrev pub all_taken : RunEvent → Bool
all_taken event = true

-- What a catch-up does to events that follow the last one.
pub record Caught (es : List RunEvent) (r q : Relay) : Type 0 where
  pub out : q.out ≡ r.out ++ es
  pub last : q.last_seq ≡ r.last_seq + length es
  pub running : q.running ≡ true
  pub local_open : q.local_open ≡ r.local_open

pub forwarded-Caught :
    (e : RunEvent) (r : Relay)
    → r.running ≡ true
    → e.seq ≡ suc r.last_seq
    → Caught (e ∷ []) r (forwarded e r)
unfolding forwarded
forwarded-Caught e r on q = record {
  out = refl;
  last = omega (arith, q);
  running = on;
  local_open = refl;
}

Caught-trans :
    (e : RunEvent) (es : List RunEvent) {r q t : Relay}
    → Caught (e ∷ []) r q
    → Caught es q t
    → Caught (e ∷ es) r t
Caught-trans e es {r} a b = record {
  out = b.out ∙ ap (λ xs. xs ++ es) a.out ∙ append_snoc r.out e es;
  last = omega (arith, a.last, b.last);
  running = b.running;
  local_open = b.local_open ∙ a.local_open;
}

catch_up_one-eq-forwarded :
    (e : RunEvent) (r : Relay) → e.seq ≡ suc r.last_seq → catch_up_one all_taken e r ≡ forwarded e r
unfolding catch_up_one
catch_up_one-eq-forwarded e r q = ground arith

catch_up-running :
    (e : RunEvent) (es : List RunEvent) (r : Relay)
    → (catch_up_one all_taken e r).running ≡ true
    → catch_up all_taken (e ∷ es) r ≡ catch_up all_taken es (catch_up_one all_taken e r)
unfolding catch_up
catch_up-running e es r on = ground arith

catch_up-Caught :
    (id : String) (es : List RunEvent) (r : Relay)
    → r.running ≡ true
    → Numbered r.last_seq id es
    → Caught es r (catch_up all_taken es r)
catch_up-Caught id [] r on h =
    unfold catch_up in
    record { out = sym (append_nil r.out); last = omega arith; running = on; local_open = refl }
catch_up-Caught id (e ∷ es) r on (q, _, h) =
    let one : Caught (e ∷ []) r (catch_up_one all_taken e r) =
      subst (Caught (e ∷ []) r) (sym (catch_up_one-eq-forwarded e r q))
        (forwarded-Caught e r on q) in
    subst (Caught (e ∷ es) r) (sym (catch_up-running e es r one.running)) (
      Caught-trans e es one (
        catch_up-Caught id es (catch_up_one all_taken e r) one.running
          (subst (λ n. Numbered n id es) (omega (arith, q, one.last)) h)))

drop-Numbered :
    (n k m : ℕ) (id : String) (es : List RunEvent)
    → m ≡ n + k
    → Numbered n id es
    → Numbered m id (drop k es)
drop-Numbered n zero m id es q h = subst (λ x. Numbered x id es) (omega (arith, q)) h
drop-Numbered n (suc k) m id [] q h = tt
drop-Numbered n (suc k) m id (e ∷ es) q h = drop-Numbered (suc n) k m id es (omega (arith, q)) h.2

-- The event at position `d` of a sound log has number `d + 1`.
pub seq_at :
    (id : String) (d : ℕ) (log : List RunEvent) (e : RunEvent) (rest : List RunEvent)
    → Numbered 0 id log
    → drop d log ≡ e ∷ rest
    → e.seq ≡ suc d
seq_at id d log e rest num here =
    (subst (λ es. Numbered d id es) here (drop-Numbered 0 d d id log (omega arith) num)).0

-- A nudge brings the whole log.
pub on_nudge-Caught :
    (id : String) (nudge : EventNudge) (s : Store) (r : Relay)
    → LogOk s id
    → r.running ≡ true
    → r.last_seq < nudge.seq
    → Caught (drop r.last_seq (events_of s id)) r (on_nudge all_taken nudge id s r)
unfolding on_nudge
on_nudge-Caught id nudge s r ok on lt =
    let late : leb nudge.seq r.last_seq ≡ false = ground arith in
    rw (late, list_events-eq-drop id r.last_seq s ok)
      (catch_up-Caught id (drop r.last_seq (events_of s id)) r on
        (drop-Numbered 0 r.last_seq r.last_seq id (events_of s id) (omega arith) ok.numbered))

-- The number that the relay starts from is that of the last event of the log.
max_from-Numbered :
    (id : String) (n : ℕ) (es : List RunEvent) → Numbered n id es → max_from n es ≡ n + length es
max_from-Numbered id n [] h = omega arith
max_from-Numbered id n (e ∷ es) (q, _, h) =
    ap (λ m. max_from m es) (ground arith) ∙ max_from-Numbered id (suc n) es h ∙ omega arith

pub new_relay-last :
    (id : String) (s : Store) → LogOk s id → (new_relay id s).last_seq ≡ length (events_of s id)
unfolding new_relay max_event_seq
new_relay-last id s h =
    ap (max_from 0) (list_events-eq-drop id 0 s h)
    ∙ max_from-Numbered id 0 (events_of s id) h.numbered
    ∙ omega arith
