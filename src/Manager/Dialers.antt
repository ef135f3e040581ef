-- ===== src/Manager/Dialers.antt =====
-- While a broker's entry says that a connection is being made, some task is making it, unless the
-- executor has refused a task.
use pulsar_rdg_rs.Prelude.{
  ℕ, ◌≡◌, ◌≤◌, refl, sym, ◌∙◌, Bool, true, false, none, some, [], ◌∷◌, Result, ok, err, Bool-cases,
  inl, inr, arith,
}
use pulsar_rdg_rs.Errors.{ConnectionError}
use pulsar_rdg_rs.Manager.{
  BrokerAddress, ConnectionRetryOptions, connected, connecting, Entry, get_connection,
  connect_inner, connect, should_retain, retain,
}
use pulsar_rdg_rs.Manager.Steps.{
  Cell, dials, on_get, on_enter, on_connect, on_check, CellStep, gets, enters, ends_loop, ends_wait,
  State, Reach, new, Reach-keeps,
}

abbrev pub is_connecting : Entry → Bool
is_connecting (some (connecting v)) = true
is_connecting _ = false

unfoldable pub HasDialer : Cell → Type 0
HasDialer c = is_connecting c.entry ≡ true → 1 ≤ c.dialing

-- The executor takes every task that it is given.
abbrev pub AlwaysSpawns : Bool → Type 0
AlwaysSpawns spawned = spawned ≡ true

get_connection-is_connecting :
    (is_valid : ℕ → Bool) (now tx : ℕ) (entry : Entry)
    → let (e, next) = get_connection is_valid now tx entry in is_connecting e ≡ is_connecting entry
unfolding get_connection
get_connection-is_connecting is_valid now tx none = refl
get_connection-is_connecting is_valid now tx (some (connecting v)) = refl
get_connection-is_connecting is_valid now tx (some (connected conn t)) =
    elim (Bool-cases (is_valid conn)) [ inl e ↦ rw e refl | inr e ↦ rw e refl ]

connect_inner-dials :
    (tx n : ℕ) (entry : Entry)
    → (is_connecting entry ≡ true → 1 ≤ n)
    → let (e, next) = connect_inner tx entry in is_connecting e ≡ true → 1 ≤ dials next n
unfolding connect_inner
connect_inner-dials tx n none h q = omega arith
connect_inner-dials tx n (some (connecting [])) h q = omega arith
connect_inner-dials tx n (some (connecting (x ∷ v))) h q = h q
connect_inner-dials tx n (some (connected conn t)) h q = omega arith

connect-is_connecting :
    (res : Result ConnectionError ℕ) (spawned : Bool) (now : ℕ) (entry : Entry)
    → spawned ≡ true
    → let (e, answers, r) = connect res spawned now entry in is_connecting e ≡ false
unfolding connect
connect-is_connecting (err e) spawned now entry h = refl
connect-is_connecting (ok conn) false now entry h = cc
connect-is_connecting (ok conn) true now entry h = refl

retain-is_connecting :
    (v : ℕ → Bool) (n : ℕ → ℕ) (o : ConnectionRetryOptions) (now : ℕ) (entry : Entry)
    → is_connecting (retain v n o now entry) ≡ is_connecting entry
unfolding retain should_retain
retain-is_connecting v n o now none = refl
retain-is_connecting v n o now (some (connecting w)) = refl
retain-is_connecting v n o now (some (connected conn t)) =
    elim (Bool-cases (should_retain v n o now (connected conn t))) [
      | inl e ↦ rw e refl
      | inr e ↦ rw e refl
    ]

CellStep-HasDialer : (c d : Cell) → CellStep AlwaysSpawns c d → HasDialer c → HasDialer d
unfolding HasDialer on_get on_enter on_connect
CellStep-HasDialer _ _ (gets v now tx c) h q =
    h (sym (get_connection-is_connecting v now tx c.entry) ∙ q)
CellStep-HasDialer _ _ (enters tx c) h q = connect_inner-dials tx c.dialing c.entry h q
CellStep-HasDialer _ _ (ends_loop res spawned now n c p e) h q =
    let f = connect-is_connecting res spawned now c.entry p in cc
CellStep-HasDialer _ _ (ends_wait i tx res spawned now c p e) h q =
    let f = connect-is_connecting res spawned now c.entry p in cc

on_check-HasDialer :
    (v : ℕ → Bool) (n : ℕ → ℕ) (o : ConnectionRetryOptions) (now : ℕ) (c : Cell)
    → HasDialer c
    → HasDialer (on_check v n o now c)
unfolding HasDialer on_check
on_check-HasDialer v n o now c h q = h (sym (retain-is_connecting v n o now c.entry) ∙ q)

-- In every state that a new manager's tasks reach, when the executor takes every task that it is
-- given: if a broker's entry says that a connection is being made, at least one task is in the
-- loop that makes it.
pub Reach-is_connecting :
    (s : State) (b : BrokerAddress)
    → Reach AlwaysSpawns new s
    → is_connecting (s b).entry ≡ true
    → 1 ≤ (s b).dialing
Reach-is_connecting s b r =
    unfold HasDialer in
    Reach-keeps AlwaysSpawns HasDialer CellStep-HasDialer on_check-HasDialer r b (λ q. cc)
