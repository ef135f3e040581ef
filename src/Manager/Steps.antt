-- ===== src/Manager/Steps.antt =====
-- The table of connections with what has happened at each broker so far, and the steps that the
-- tasks of a client take on it, in any order.
use pulsar_rdg_rs.Prelude.{
  ℕ, suc, ◌≡◌, sym, subst, Bool, none, some, get_elem?, List, [], ◌∷◌, ◌++◌, Result, ok, err,
  if◌then◌else◌, Bool-cases, inl, inr,
}
use pulsar_rdg_rs.Errors.{ConnectionError}
use pulsar_rdg_rs.Manager.{
  BrokerAddress, address_beq_iff, address_eq, ConnectionRetryOptions, Entry, Answers, Lookup, waits,
  connects, get_connection, connect_inner, connect, retain,
}

-- A broker's entry; how many tasks are in the loop that opens connections; the connections that
-- such loops opened; the senders that were pushed; and the answers that were sent, in order.
pub record Cell : Type 0 where
  pub entry : Entry
  pub dialing : ℕ
  pub opened : List ℕ
  pub registered : List ℕ
  pub answered : Answers

abbrev pub sender : Lookup → List ℕ
sender (waits tx) = tx ∷ []
sender _ = []

-- A task that connects runs the loop; one that waits does not.
abbrev pub dials : Lookup → ℕ → ℕ
dials connects n = suc n
dials _ n = n

abbrev pub connection : Result ConnectionError ℕ → List ℕ
connection (ok conn) = conn ∷ []
connection (err e) = []

unfoldable pub on_get : (ℕ → Bool) → ℕ → ℕ → Cell → Cell
unfolding get_connection
on_get is_valid now tx c =
    let (entry, next) = get_connection is_valid now tx c.entry in
    record {
      entry = entry;
      dialing = c.dialing;
      opened = c.opened;
      registered = c.registered ++ sender next;
      answered = c.answered;
    }

unfoldable pub on_enter : ℕ → Cell → Cell
unfolding connect_inner
on_enter tx c =
    let (entry, next) = connect_inner tx c.entry in
    record {
      entry = entry;
      dialing = dials next c.dialing;
      opened = c.opened;
      registered = c.registered ++ sender next;
      answered = c.answered;
    }

-- A task's connect ends, with what its connect_inner gave; `opened` and `dialing` are then these.
unfoldable pub on_connect : Result ConnectionError ℕ → Bool → ℕ → ℕ → List ℕ → Cell → Cell
unfolding connect
on_connect res spawned now dialing opened c =
    let (entry, answers, result) = connect res spawned now c.entry in
    record {
      entry = entry;
      dialing = dialing;
      opened = opened;
      registered = c.registered;
      answered = c.answered ++ answers;
    }

unfoldable pub on_check : (ℕ → Bool) → (ℕ → ℕ) → ConnectionRetryOptions → ℕ → Cell → Cell
unfolding retain
on_check is_valid strong_count options now c = record {
  entry = retain is_valid strong_count options now c.entry;
  dialing = c.dialing;
  opened = c.opened;
  registered = c.registered;
  answered = c.answered;
}

-- A task's step at one broker. `Spawns` says which answers the executor gives to a new task. A
-- connect ends after its loop, or after its wait for an answer.
pub data CellStep (Spawns : Bool → Type 0) : Cell → Cell → Type 0 where
  gets :
      (is_valid : ℕ → Bool) (now tx : ℕ) (c : Cell) → CellStep Spawns c (on_get is_valid now tx c)
  enters : (tx : ℕ) (c : Cell) → CellStep Spawns c (on_enter tx c)
  ends_loop :
      (res : Result ConnectionError ℕ) (spawned : Bool) (now n : ℕ) (c : Cell)
      → Spawns spawned
      → c.dialing ≡ suc n
      → CellStep Spawns c (on_connect res spawned now n (c.opened ++ connection res) c)
  ends_wait :
      (i tx : ℕ) (res : Result ConnectionError ℕ) (spawned : Bool) (now : ℕ) (c : Cell)
      → Spawns spawned
      → get_elem? c.answered i ≡ some (tx, res)
      → CellStep Spawns c (on_connect res spawned now c.dialing c.opened c)

abbrev pub State : Type 0
State = BrokerAddress → Cell

abbrev pub set : BrokerAddress → Cell → State → State
set broker c s b = if address_eq.beq broker b then c else s b

pub data Step (Spawns : Bool → Type 0) : State → State → Type 0 where
  at_broker :
      (broker : BrokerAddress) (s : State) (c : Cell)
      → CellStep Spawns (s broker) c
      → Step Spawns s (set broker c s)
  checks :
      (is_valid : ℕ → Bool) (strong_count : ℕ → ℕ) (options : ConnectionRetryOptions) (now : ℕ)
      (s : State)
      → Step Spawns s (λ b. on_check is_valid strong_count options now (s b))

pub data Reach (Spawns : Bool → Type 0) (s : State) : State → Type 0 where
  here : Reach Spawns s s
  next : {t u : State} → Reach Spawns s t → Step Spawns t u → Reach Spawns s u

abbrev pub new_cell : Cell
new_cell = record { entry = none; dialing = 0; opened = []; registered = []; answered = [] }

-- The table of a new manager.
abbrev pub new : State
new b = new_cell

-- What the steps of one cell keep, and a cleanup keeps, holds on at a broker where it holds.
module _ (Spawns : Bool → Type 0) (P : Cell → Type 0)
    (step : (c d : Cell) → CellStep Spawns c d → P c → P d)
    (check : (is_valid : ℕ → Bool) (strong_count : ℕ → ℕ) (options : ConnectionRetryOptions)
        (now : ℕ) (c : Cell)
      → P c
      → P (on_check is_valid strong_count options now c)) where
  set-keeps :
      (s : State) (broker b : BrokerAddress) (c : Cell)
      → P (s b)
      → (P (s broker) → P c)
      → P (set broker c s b)
  set-keeps s broker b c h p = elim (Bool-cases (address_eq.beq broker b)) [
    | inl e ↦
        let same = (address_beq_iff broker b).0 e in rw e (p (subst (λ k. P (s k)) (sym same) h))
    | inr e ↦ rw e h
  ]

  pub Reach-keeps : {s t : State} → Reach Spawns s t → (b : BrokerAddress) → P (s b) → P (t b)
  Reach-keeps here b h = h
  Reach-keeps (next r (at_broker broker t c st)) b h =
      set-keeps t broker b c (Reach-keeps r b h) (step (t broker) c st)
  Reach-keeps (next r (checks v n o now t)) b h = check v n o now (t b) (Reach-keeps r b h)
