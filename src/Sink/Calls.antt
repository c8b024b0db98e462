-- ===== src/Sink/Calls.antt =====
-- Chains of calls to the repository.
use nice_agent.Prelude.{ℕ, ◌+◌, String}
use nice_agent.Store.{Store, Result, ok, err}

-- What comes from outside: the clock and the drawn identifiers, at each call.
pub record Outside : Type 0 where
  pub now : ℕ → ℕ
  pub fresh : ℕ → String

pub record World : Type 0 where
  pub store : Store
  pub calls : ℕ

abbrev pub Chain : Type 0 → Type 0
Chain A = World → Result A × World

abbrev pub continue : {A B : Type 0} → Result A → (A → Chain B) → Chain B
continue (ok a) f w = f a w
continue (err e) f w = (err e, w)

infixl 5 ◌>>=◌ ◌>>◌
abbrev pub ◌>>=◌ : {A B : Type 0} → Chain A → (A → Chain B) → Chain B
◌>>=◌ m f w = continue (m w).0 f (m w).1

abbrev pub ◌>>◌ : {B : Type 0} → Chain (Unit {0}) → Chain B → Chain B
m >> k = m >>= λ _. k

abbrev pub pure : {A : Type 0} → A → Chain A
pure a w = (ok a, w)

abbrev pub call : Outside → {A : Type 0} → (ℕ → String → Store → Result A × Store) → Chain A
call o f w =
    let r = f (o.now w.calls) (o.fresh w.calls) w.store in
    (r.0, record { store = r.1; calls = w.calls + 1 })
