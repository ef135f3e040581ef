-- ===== src/Tests/Managers.antt =====
-- src/connection_manager.rs: the table of connections, and the loop that opens one.
use pulsar_rdg_rs.Prelude.{
  ℕ, zero, suc, inr, ◌≡◌, refl, Bool, true, false, some, List, [], ◌∷◌, ◌++◌, Result, ok, err,
  arith,
}
use pulsar_rdg_rs.Prelude.Equals.{text_eq}
use pulsar_rdg_rs.Errors.{ConnectionError, io, connection_refused}
use pulsar_rdg_rs.Manager.{
  BrokerAddress, ConnectionRetryOptions, connected, returned, get_connection, connect_inner,
}
use pulsar_rdg_rs.Manager.Steps.{
  on_get, on_enter, on_connect, on_check, gets, enters, ends_loop, State, set, at_broker, checks,
  Reach, here, next, new,
}
use pulsar_rdg_rs.Manager.Waiting.{IsAccounted, Reach-IsAccounted}
use pulsar_rdg_rs.Manager.Dialers.{AlwaysSpawns}
use pulsar_rdg_rs.Manager.Stuck.{IsStuck, spawn_failed-IsStuck}
use pulsar_rdg_rs.Manager.Cleanup.{looked_up, checked, Use, uses, uses-returned}
use pulsar_rdg_rs.Manager.Dialing.{open_loop}
use pulsar_rdg_rs.Manager.Backoff.{Outcome, open_loop-Outcome}

abbrev pub broker : BrokerAddress
broker = record { url = 1 ∷ []; broker_url = 2 ∷ []; proxy = false }

abbrev other : BrokerAddress
other = record { url = 3 ∷ []; broker_url = 2 ∷ []; proxy = true }

abbrev valid : ℕ → Bool
valid conn = true

abbrev options : ConnectionRetryOptions
options = record {
  min_backoff = 10000000;
  max_backoff = 30000000000;
  max_retries = 12;
  connection_max_idle = 120000000000;
}

-- One task connects to the broker, and two others look it up and wait.
abbrev entered : State
entered = set broker (on_enter 5 (new broker)) new

abbrev joined : State
joined = set broker (on_get valid 1 6 (entered broker)) entered

abbrev joined_twice : State
joined_twice = set broker (on_get valid 2 7 (joined broker)) joined

module _ (Spawns : Bool → Type 0) where
  reached : Reach Spawns new joined_twice
  reached =
      next
        (next (next here (at_broker broker new _ (enters 5 (new broker))))
          (at_broker broker entered _ (gets valid 1 6 (entered broker))))
        (at_broker broker joined _ (gets valid 2 7 (joined broker)))

-- The connection 40 is made, and all are answered; then comes a cleanup.
abbrev established : State
established = set broker (on_connect (ok 40) true 3 0 (40 ∷ []) (joined_twice broker)) joined_twice

abbrev cleaned : State
cleaned b = on_check valid (λ conn. 1) options 9 (established b)

reached_cleaned : Reach AlwaysSpawns new cleaned
unfolding on_enter connect_inner on_get get_connection
reached_cleaned =
    next
      (next (reached AlwaysSpawns) (
        at_broker broker joined_twice _
          (ends_loop (ok 40) true 3 0 (joined_twice broker) refl refl)))
      (checks valid (λ conn. 1) options 9 established)

Reach-IsAccounted_example : IsAccounted (cleaned broker)
Reach-IsAccounted_example = Reach-IsAccounted AlwaysSpawns cleaned reached_cleaned broker

-- The connection 40 is made, but the executor refuses its keep-alive task.
abbrev refused : State
refused =
    set broker (on_connect (ok 40) false 3 0 ([] ++ (40 ∷ [])) (joined_twice broker)) joined_twice

spawn_failed-IsStuck_example : IsStuck 6 (7 ∷ []) (refused broker)
unfolding on_enter connect_inner on_get get_connection
spawn_failed-IsStuck_example =
    spawn_failed-IsStuck 6 (7 ∷ []) (λ spawned. Unit) joined_twice refused broker 40 3 refl refl
      refl here

abbrev us : List Use
us = looked_up 5 ∷ checked 100000 ∷ checked 120000000000 ∷ []

uses-returned_example :
    (get_connection valid 120000000007 8
      (uses valid (λ conn. 1) options 8 us (get_connection valid 2 8 (some (connected 40 0))).0)).1
    ≡ returned 40
uses-returned_example =
    uses-returned valid (λ conn. 1) options 8 40 0 2 120000000007 us refl
      (
        (omega arith),
        (omega arith),
        ((omega arith), (omega arith), ((omega arith), (omega arith), tt)),
      )

-- Two attempts are refused, and the third gives the connection 40.
abbrev attempts : ℕ → Result ConnectionError ℕ
attempts zero = err (io connection_refused)
attempts (suc zero) = err (io connection_refused)
attempts (suc (suc n)) = ok 40

abbrev jitter : ℕ → ℕ
jitter n = 9

open_loop-Outcome_example :
    Outcome options attempts 0 12 (open_loop 13 true options attempts jitter 0)
open_loop-Outcome_example =
    open_loop-Outcome options (omega arith) (omega arith) true (inr (omega arith)) attempts jitter
      12 0 (λ n. omega arith) refl
