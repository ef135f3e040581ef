-- ===== src/Manager/Stuck.antt =====
-- What follows when the executor refuses the keep-alive task of a new connection.
use mathlib.Core.List.{append_assoc, append-nil}
use pulsar_rdg_rs.Prelude.{
  ℕ, ◌≡◌, refl, sym, ap, ◌∙◌, Bool, false, some, get_elem?, List, [], ◌∷◌, ◌++◌, ok, arith,
}
use pulsar_rdg_rs.Prelude.Maps.{beq_refl}
use pulsar_rdg_rs.Manager.{
  BrokerAddress, address_eq, ConnectionRetryOptions, connecting, get_connection, connect_inner,
  connect, should_retain, retain,
}
use pulsar_rdg_rs.Manager.Steps.{
  Cell, dials, on_get, on_enter, on_connect, on_check, CellStep, gets, enters, ends_loop, ends_wait,
  State, set, Reach, Reach-keeps,
}

-- The tasks `x`, `v` and perhaps more wait, nobody makes a connection, and nobody was answered.
pub record IsStuck (x : ℕ) (v : List ℕ) (c : Cell) : Type 0 where
  pub more : List ℕ
  pub waiting : c.entry ≡ some (connecting (x ∷ (v ++ more)))
  pub idle : c.dialing ≡ 0
  pub unanswered : c.answered ≡ []

module _ (x : ℕ) (v : List ℕ) where
  joined :
      (more : List ℕ) (tx : ℕ)
      → some (connecting ((x ∷ (v ++ more)) ++ (tx ∷ [])))
        ≡ some (connecting (x ∷ (v ++ (more ++ (tx ∷ [])))))
  joined more tx = ap (λ l. some (connecting (x ∷ l))) (append_assoc v more (tx ∷ []))

  on_get-IsStuck :
      (is_valid : ℕ → Bool) (now tx : ℕ) (c : Cell)
      → IsStuck x v c
      → IsStuck x v (on_get is_valid now tx c)
  unfolding on_get get_connection
  on_get-IsStuck is_valid now tx c s = record {
    more = s.more ++ (tx ∷ []);
    waiting = ap (λ e. (get_connection is_valid now tx e).0) s.waiting ∙ joined s.more tx;
    idle = s.idle;
    unanswered = s.unanswered;
  }

  on_enter-IsStuck : (tx : ℕ) (c : Cell) → IsStuck x v c → IsStuck x v (on_enter tx c)
  unfolding on_enter connect_inner
  on_enter-IsStuck tx c s = record {
    more = s.more ++ (tx ∷ []);
    waiting = ap (λ e. (connect_inner tx e).0) s.waiting ∙ joined s.more tx;
    idle = ap (λ e. dials (connect_inner tx e).1 c.dialing) s.waiting ∙ s.idle;
    unanswered = s.unanswered;
  }

  on_check-IsStuck :
      (is_valid : ℕ → Bool) (n : ℕ → ℕ) (o : ConnectionRetryOptions) (now : ℕ) (c : Cell)
      → IsStuck x v c
      → IsStuck x v (on_check is_valid n o now c)
  unfolding on_check retain should_retain
  on_check-IsStuck is_valid n o now c s = record {
    more = s.more;
    waiting = ap (retain is_valid n o now) s.waiting;
    idle = s.idle;
    unanswered = s.unanswered;
  }

  CellStep-IsStuck :
      (Spawns : Bool → Type 0) (c d : Cell) → CellStep Spawns c d → IsStuck x v c → IsStuck x v d
  CellStep-IsStuck Spawns _ _ (gets is_valid now tx c) s = on_get-IsStuck is_valid now tx c s
  CellStep-IsStuck Spawns _ _ (enters tx c) s = on_enter-IsStuck tx c s
  CellStep-IsStuck Spawns _ _ (ends_loop res spawned now n c p e) s =
      let idle = s.idle in absurd (omega arith)
  CellStep-IsStuck Spawns _ _ (ends_wait i tx res spawned now c p e) s =
      let none_yet = ap (λ l. get_elem? l i) s.unanswered in cc

  -- When the only task that makes a connection to a broker makes one, and the executor refuses its
  -- keep-alive task, then the tasks that were waiting, none of which has an answer, wait for ever:
  -- in every state that is reached from there the entry still says that a connection is being made,
  -- with these tasks and those that came later waiting, no task makes one, and nobody was answered.
  pub spawn_failed-IsStuck :
      (Spawns : Bool → Type 0) (s t : State) (b : BrokerAddress) (conn now : ℕ)
      → (s b).entry ≡ some (connecting (x ∷ v))
      → (s b).dialing ≡ 1
      → (s b).answered ≡ []
      → Reach Spawns
          (set b (on_connect (ok conn) false now 0 ((s b).opened ++ (conn ∷ [])) (s b)) s)
          t
      → IsStuck x v (t b)
  unfolding on_connect connect
  spawn_failed-IsStuck Spawns s t b conn now e one none_yet r =
      Reach-keeps Spawns (IsStuck x v) (CellStep-IsStuck Spawns) on_check-IsStuck r b (
        rw (beq_refl b) record {
          more = [];
          waiting = e ∙ ap (λ l. some (connecting (x ∷ l))) (sym (append-nil v));
          idle = refl;
          unanswered = append-nil _ ∙ none_yet;
        })
