-- ===== src/Consumer/Multi/Running.antt =====
-- What goes on around a `MultiTopicConsumer`: the engines fill the channels or end, and the caller
-- polls it.
use pulsar_rdg_rs.Prelude.{continued, ℕ, true, Option, none, some, List, [], ◌∷◌, ◌++◌}
use pulsar_rdg_rs.Prelude.Maps.{lookup, insert}
use pulsar_rdg_rs.Prelude.Equals.{text_eq}
use pulsar_rdg_rs.Bytes.{Text}
use pulsar_rdg_rs.Consumer.Multi.{Item, Member, Delivered, MultiTopicConsumer}
use pulsar_rdg_rs.Consumer.Multi.Updating.{Answers}
use pulsar_rdg_rs.Consumer.Multi.Polling.{Outcome, poll_next}

pub data Event (E : Type 0) : Type 0 where
  arrived : Text → Item E → Event E
  ended : Text → Event E
  poll : ℕ → List (Option (Answers E)) → Option (Answers E) → Event E

-- Everything that was handed to the caller, and everything that was reported, up to a state.
pub record Run (E : Type 0) : Type 0 where
  pub state : MultiTopicConsumer E
  pub delivered : List Delivered
  pub missing : List Text

abbrev pub put_item : {E : Type 0} → Item E → Member E → Member E
put_item item c = record c { items = c.items ++ item ∷ [] }

abbrev pub end_channel : {E : Type 0} → Member E → Member E
end_channel c = record c { ended = true }

abbrev pub change :
    {E : Type 0}
    → Text
    → (Member E → Member E)
    → Option (Member E)
    → MultiTopicConsumer E
    → MultiTopicConsumer E
change topic f none m = m
change topic f (some c) m = record m { consumers = insert topic (f c) m.consumers }

abbrev pub only : {A : Type 0} → Option A → List A
only none = []
only (some a) = a ∷ []

abbrev pub given : {E : Type 0} → Run E → Outcome E → Run E
given r o = record {
  state = o.state;
  delivered = r.delivered ++ only o.result;
  missing = r.missing ++ o.missing;
}

abbrev pub on_outcome : {E : Type 0} → Run E → Option (Outcome E) → Option (Run E)
on_outcome r none = none
on_outcome r (some o) = some (given r o)

abbrev pub changed : {E : Type 0} → Text → (Member E → Member E) → Run E → Run E
changed topic f r = record r { state = change topic f (lookup topic r.state.consumers) r.state }

-- `none` is a panic.
unfoldable pub step : {E : Type 0} → Event E → Run E → Option (Run E)
unfolding poll_next
step (arrived topic item) r = some (changed topic (put_item item) r)
step (ended topic) r = some (changed topic end_channel r)
step (poll now fired last) r = on_outcome r (poll_next now fired last r.state)

unfoldable pub run : {E : Type 0} → List (Event E) → Run E → Option (Run E)
unfolding step
run [] r = some r
run (e ∷ es) r = continued (run es) (step e r)
