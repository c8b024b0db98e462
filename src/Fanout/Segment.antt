-- ===== src/Fanout/Segment.antt =====
-- The relay of eventbus.go has forwarded a segment of the log: each input keeps that.
use nice_agent.Prelude.{
  ℕ, suc, ◌+◌, ◌≤◌, String, true, ◌≡◌, refl, sym, ap, ◌∙◌, subst, Bool-cases, inl, inr, List, [],
  ◌∷◌, ◌++◌, length, drop, drop-append_le, drop-length, drop-suc, drop_in, length-append,
  append_nil, length-drop, append_assoc, arith, ltb, leb,
}
use nice_agent.Protocol.Event.{RunEvent}
use nice_agent.Store.{Store}
use nice_agent.Store.Events.{events_of}
use nice_agent.Store.Steps.Numbered.{LogOk}
use nice_agent.Fanout.{EventNudge, Relay, forwarded, on_local, on_nudge, new_relay}
use nice_agent.Fanout.CatchUp.{all_taken, Caught, forwarded-Caught, on_nudge-Caught, new_relay-last}

-- The forwarded events are the log from `base` to `last_seq`.
pub record SegmentOk (base : ℕ) (log : List RunEvent) (delivered : ℕ) (r : Relay) : Type 0 where
  pub first : base ≤ r.last_seq
  pub last : r.last_seq ≤ length log
  pub behind : delivered ≤ r.last_seq
  pub segment : drop base log ≡ r.out ++ drop r.last_seq log
  pub running : r.running ≡ true
  pub local_open : r.local_open ≡ true

-- The log grows.
pub grown-SegmentOk :
    (base : ℕ) (log more : List RunEvent) (d : ℕ) (r : Relay)
    → SegmentOk base log d r
    → SegmentOk base (log ++ more) d r
grown-SegmentOk base log more d r h = record {
  first = h.first;
  last = omega (arith, h.last, length-append log more);
  behind = h.behind;
  segment =
      drop-append_le base log more (omega (arith, h.first, h.last))
      ∙ ap (λ xs. xs ++ more) h.segment
      ∙ append_assoc r.out (drop r.last_seq log) more
      ∙ ap (λ xs. r.out ++ xs) (sym (drop-append_le r.last_seq log more h.last));
  running = h.running;
  local_open = h.local_open;
}

-- A catch-up that has forwarded the events `es` behind the last one, which `rest` follow.
Caught-SegmentOk :
    (base : ℕ) (log : List RunEvent) (d : ℕ) (r q : Relay) (es : List RunEvent) (k : ℕ)
    → drop r.last_seq log ≡ es ++ drop q.last_seq log
    → q.last_seq ≤ length log
    → k ≤ q.last_seq
    → Caught es r q
    → SegmentOk base log d r
    → SegmentOk base log k q
Caught-SegmentOk base log d r q es k split le le' c h = record {
  first = omega (arith, h.first, c.last);
  last = le;
  behind = le';
  segment =
      h.segment
      ∙ ap (λ xs. r.out ++ xs) split
      ∙ sym (append_assoc r.out es (drop q.last_seq log))
      ∙ ap (λ xs. xs ++ drop q.last_seq log) (sym c.out);
  running = c.running;
  local_open = c.local_open ∙ h.local_open;
}

-- The next event of the local channel is the one behind the last, or one that a nudge has brought.
pub on_local-SegmentOk :
    (base : ℕ) (log : List RunEvent) (d : ℕ) (r : Relay) (e : RunEvent) (rest : List RunEvent)
    → e.seq ≡ suc d
    → drop d log ≡ e ∷ rest
    → SegmentOk base log d r
    → SegmentOk base log (suc d) (on_local all_taken e r)
unfolding on_local
on_local-SegmentOk base log d r e rest q here h = elim (Bool-cases (ltb r.last_seq e.seq)) [
  | inl lt ↦
      let same : d ≡ r.last_seq = ground (arith, h.behind) in
      let c = forwarded-Caught e r h.running (omega (arith, q, same)) in
      rw lt (
        Caught-SegmentOk base log d r (forwarded e r) (e ∷ []) (suc d) (split same c.last)
          (omega (arith, drop_in d log here, c.last, same)) (omega (arith, c.last, same)) c h)
  | inr ge ↦ rw ge (record {
    first = h.first;
    last = h.last;
    behind = ground arith;
    segment = h.segment;
    running = h.running;
    local_open = h.local_open;
  })
]
  where
    split :
        d ≡ r.last_seq
        → (forwarded e r).last_seq ≡ r.last_seq + 1
        → drop r.last_seq log ≡ (e ∷ []) ++ drop (forwarded e r).last_seq log
    split same next =
        subst (λ n. drop n log ≡ (e ∷ []) ++ drop (forwarded e r).last_seq log) same
          (here
            ∙ ap (λ xs. e ∷ xs)
                (sym (drop-suc d log here)
                  ∙ ap (λ n. drop n log) {x = suc d} (omega (arith, same, next))))

pub on_nudge-SegmentOk :
    (id : String) (base : ℕ) (nudge : EventNudge) (s : Store) (d : ℕ) (r : Relay)
    → LogOk s id
    → SegmentOk base (events_of s id) d r
    → SegmentOk base (events_of s id) d (on_nudge all_taken nudge id s r)
on_nudge-SegmentOk id base nudge s d r ok h = elim (Bool-cases (leb nudge.seq r.last_seq)) [
  | inl early ↦ unfold on_nudge in rw early h
  | inr late ↦
      let c = on_nudge-Caught id nudge s r ok h.running (ground arith) in
      let all = length-drop r.last_seq (events_of s id) h.last in
      let top : (on_nudge all_taken nudge id s r).last_seq ≡ length (events_of s id) =
        omega (arith, c.last, all, h.last) in
      Caught-SegmentOk base (events_of s id) d r (on_nudge all_taken nudge id s r)
        (drop r.last_seq (events_of s id)) d
        (sym (
          ap (λ xs. drop r.last_seq (events_of s id) ++ xs)
            (ap (λ n. drop n (events_of s id)) top ∙ drop-length (events_of s id))
          ∙ append_nil (drop r.last_seq (events_of s id))))
        (omega (arith, top)) (omega (arith, top, h.last, h.behind)) c h
]

pub started-SegmentOk :
    (id : String) (s : Store) (d : ℕ)
    → LogOk s id
    → d ≤ length (events_of s id)
    → SegmentOk (new_relay id s).last_seq (events_of s id) d (new_relay id s)
started-SegmentOk id s d ok le =
    let q = new_relay-last id s ok in
    record {
      first = omega arith;
      last = omega (arith, q);
      behind = omega (arith, q, le);
      segment = unfold new_relay in refl;
      running = unfold new_relay in refl;
      local_open = unfold new_relay in refl;
    }
