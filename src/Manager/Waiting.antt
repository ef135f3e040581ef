-- ===== src/Manager/Waiting.antt =====
-- Every task that waits for a connection is answered once, in order, or still waits.
use mathlib.Core.List.{append_assoc, append-nil, map-append}
use pulsar_rdg_rs.Prelude.{
  ℕ, ◌≡◌, refl, sym, ap, ◌∙◌, Bool, true, false, none, some, List, [], ◌∷◌, ◌++◌, map, Result, ok,
  err, Bool-cases, inl, inr,
}
use pulsar_rdg_rs.Errors.{ConnectionError}
use pulsar_rdg_rs.Manager.{
  BrokerAddress, ConnectionRetryOptions, connected, connecting, Entry, Answers, get_connection,
  connect_inner, drain, connect, should_retain, retain,
}
use pulsar_rdg_rs.Manager.Steps.{
  Cell, sender, on_get, on_enter, on_connect, on_check, CellStep, gets, enters, ends_loop,
  ends_wait, State, Reach, new, Reach-keeps,
}

abbrev pub senders : Answers → List ℕ
senders as' = map (λ a. a.0) as'

-- The senders that were pushed are those that were answered, in this order, and those that wait.
unfoldable pub IsAccounted : Cell → Type 0
unfolding drain
IsAccounted c = c.registered ≡ senders c.answered ++ drain c.entry

senders-answer : (r : Result ConnectionError ℕ) (v : List ℕ) → senders (map (λ tx. (tx, r)) v) ≡ v
senders-answer r [] = refl
senders-answer r (tx ∷ v) = ap (◌∷◌ tx) (senders-answer r v)

get_connection-drain :
    (is_valid : ℕ → Bool) (now tx : ℕ) (entry : Entry)
    → let (e, next) = get_connection is_valid now tx entry in drain e ≡ drain entry ++ sender next
unfolding get_connection drain
get_connection-drain is_valid now tx none = refl
get_connection-drain is_valid now tx (some (connecting v)) = refl
get_connection-drain is_valid now tx (some (connected conn t)) = elim (Bool-cases (is_valid conn)) [
  | inl e ↦ rw e refl
  | inr e ↦ rw e refl
]

connect_inner-drain :
    (tx : ℕ) (entry : Entry)
    → let (e, next) = connect_inner tx entry in drain e ≡ drain entry ++ sender next
unfolding connect_inner drain
connect_inner-drain tx none = refl
connect_inner-drain tx (some (connecting [])) = refl
connect_inner-drain tx (some (connecting (x ∷ v))) = refl
connect_inner-drain tx (some (connected conn t)) = refl

connect-drain :
    (res : Result ConnectionError ℕ) (spawned : Bool) (now : ℕ) (entry : Entry)
    → let (e, answers, r) = connect res spawned now entry in
      drain entry ≡ senders answers ++ drain e
unfolding connect drain
connect-drain (err e) spawned now entry = sym (append-nil _ ∙ senders-answer _ (drain entry))
connect-drain (ok conn) false now entry = refl
connect-drain (ok conn) true now entry = sym (append-nil _ ∙ senders-answer _ (drain entry))

retain-drain :
    (is_valid : ℕ → Bool) (strong_count : ℕ → ℕ) (options : ConnectionRetryOptions) (now : ℕ)
    (entry : Entry)
    → drain (retain is_valid strong_count options now entry) ≡ drain entry
unfolding retain should_retain drain
retain-drain v n o now none = refl
retain-drain v n o now (some (connecting w)) = refl
retain-drain v n o now (some (connected conn t)) =
    elim (Bool-cases (should_retain v n o now (connected conn t))) [
      | inl e ↦ rw e refl
      | inr e ↦ rw e refl
    ]

pushed :
    (registered before after more : List ℕ) (answered : Answers)
    → registered ≡ senders answered ++ before
    → after ≡ before ++ more
    → registered ++ more ≡ senders answered ++ after
pushed registered before after more answered h e =
    ap (λ l. l ++ more) h
    ∙ append_assoc (senders answered) before more
    ∙ ap (λ l. senders answered ++ l) (sym e)

answered-more :
    (registered before after : List ℕ) (answered answers : Answers)
    → registered ≡ senders answered ++ before
    → before ≡ senders answers ++ after
    → registered ≡ senders (answered ++ answers) ++ after
answered-more registered before after answered answers h e =
    h
    ∙ ap (λ l. senders answered ++ l) e
    ∙ sym (append_assoc (senders answered) (senders answers) after)
    ∙ ap (λ l. l ++ after)
        (sym (map-append (λ (a : ℕ × Result ConnectionError ℕ). a.0) answered answers))

on_connect-IsAccounted :
    (res : Result ConnectionError ℕ) (spawned : Bool) (now n : ℕ) (os : List ℕ) (c : Cell)
    → IsAccounted c
    → IsAccounted (on_connect res spawned now n os c)
unfolding IsAccounted on_connect
on_connect-IsAccounted res spawned now n os c h =
    answered-more _ _ _ c.answered _ h (connect-drain res spawned now c.entry)

CellStep-IsAccounted :
    (Spawns : Bool → Type 0) (c d : Cell) → CellStep Spawns c d → IsAccounted c → IsAccounted d
unfolding IsAccounted on_get on_enter
CellStep-IsAccounted Spawns _ _ (gets v now tx c) h =
    pushed _ _ _ _ c.answered h (get_connection-drain v now tx c.entry)
CellStep-IsAccounted Spawns _ _ (enters tx c) h =
    pushed _ _ _ _ c.answered h (connect_inner-drain tx c.entry)
CellStep-IsAccounted Spawns _ _ (ends_loop res spawned now n c p q) h =
    on_connect-IsAccounted res spawned now n _ c h
CellStep-IsAccounted Spawns _ _ (ends_wait i tx res spawned now c p q) h =
    on_connect-IsAccounted res spawned now c.dialing c.opened c h

-- In every state that a new manager's tasks reach, whatever the dials and the executor answer, and
-- at every broker: the senders of the tasks that ever waited are, in order and each once, those
-- that have been answered and those that still wait in the broker's entry.
pub Reach-IsAccounted :
    (Spawns : Bool → Type 0) (s : State)
    → Reach Spawns new s
    → (b : BrokerAddress) → IsAccounted (s b)
unfolding IsAccounted on_check
Reach-IsAccounted Spawns s r b =
    Reach-keeps Spawns IsAccounted (CellStep-IsAccounted Spawns)
      (λ v n o now c h.
        h ∙ ap (λ l. senders c.answered ++ l) (sym (retain-drain v n o now c.entry)))
      r b refl
